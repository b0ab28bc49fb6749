-- ===== src/Orchestrator/Grounding/Corpus.antt =====
-- The corpus of orchestrator/grounding_validator.go has every text of the outputs as a line.
use mathlib.Core.List.{append_assoc}
use agent_orchestrator_go.Base.{
  ℕ, ◌≡◌, refl, sym, ◌⊎◌, inl, inr, List, [], ◌∷◌, ◌++◌, Option, some, Text, text_eq, All,
  All-weaken, Bool-cases, some-eq, EndsLine, Part, EndsLine-append, Part-refl, Part-left,
  Part-right, Part-trans,
}
use agent_orchestrator_go.Value.{
  Value, null, bool, int, float, str, strings, array, maps, object, Values, no_value, value, Maps,
  no_map, one_map, Fields, nil_map, end, field, lookup,
}
use agent_orchestrator_go.Value.Read.{
  string_at, string_or_empty, maps_at, maps_of, map_list, objects_in,
}
use agent_orchestrator_go.Tools.Collector.{CollectedOutput}
use agent_orchestrator_go.Orchestrator.Grounding.{
  value_text, values_text, maps_text, fields_text, corpus_text,
}

mutual
  unfolding value_text values_text maps_text fields_text

  value-EndsLine : (show_float : ℕ → Text) (v : Value) → EndsLine (value_text show_float v)
  value-EndsLine show_float (str t) = inr (t, refl)
  value-EndsLine show_float (array vs) = values-EndsLine show_float vs
  value-EndsLine show_float (maps ms) = maps-EndsLine show_float ms
  value-EndsLine show_float (object m) = fields-EndsLine show_float m
  value-EndsLine show_float null = inr (_, refl)
  value-EndsLine show_float (bool b) = inr (_, refl)
  value-EndsLine show_float (int n) = inr (_, refl)
  value-EndsLine show_float (float bits) = inr (_, refl)
  value-EndsLine show_float (strings ts) = inr (_, refl)

  values-EndsLine : (show_float : ℕ → Text) (vs : Values) → EndsLine (values_text show_float vs)
  values-EndsLine show_float no_value = inl refl
  values-EndsLine show_float (value v vs) =
      EndsLine-append _ _ (value-EndsLine show_float v) (values-EndsLine show_float vs)

  maps-EndsLine : (show_float : ℕ → Text) (ms : Maps) → EndsLine (maps_text show_float ms)
  maps-EndsLine show_float no_map = inl refl
  maps-EndsLine show_float (one_map m ms) =
      EndsLine-append _ _ (fields-EndsLine show_float m) (maps-EndsLine show_float ms)

  fields-EndsLine : (show_float : ℕ → Text) (m : Fields) → EndsLine (fields_text show_float m)
  fields-EndsLine show_float nil_map = inl refl
  fields-EndsLine show_float end = inl refl
  fields-EndsLine show_float (field k v m) =
      EndsLine-append _ _ (value-EndsLine show_float v) (fields-EndsLine show_float m)

module _ (show_float : ℕ → Text) where
  corpus-EndsLine : (outputs : List CollectedOutput) → EndsLine (corpus_text show_float outputs)
  unfolding corpus_text
  corpus-EndsLine [] = inl refl
  corpus-EndsLine (o ∷ outputs) =
      EndsLine-append _ _ (fields-EndsLine show_float o.output) (corpus-EndsLine outputs)

  corpus_text-append :
      (xs ys : List CollectedOutput)
      → corpus_text show_float (xs ++ ys) ≡ corpus_text show_float xs ++ corpus_text show_float ys
  unfolding corpus_text
  corpus_text-append [] ys = refl
  corpus_text-append (o ∷ xs) ys =
      rw (corpus_text-append xs ys) (sym (append_assoc (fields_text show_float o.output) _ _))

  -- What the corpus has it keeps when more outputs are collected.
  pub Part-corpus-append :
      (u : Text) (xs ys : List CollectedOutput)
      → Part u (corpus_text show_float xs)
      → Part u (corpus_text show_float (xs ++ ys))
  Part-corpus-append u xs ys h = rw (corpus_text-append xs ys) (Part-left u _ _ h)

  -- The output of the last call is part of the corpus.
  pub Part-corpus_last :
      (xs : List CollectedOutput) (o : CollectedOutput)
      → Part (fields_text show_float o.output) (corpus_text show_float (xs ++ o ∷ []))
  unfolding corpus_text
  Part-corpus_last xs o =
      rw (corpus_text-append xs (o ∷ []))
        (Part-right _ _ _ (corpus-EndsLine xs) (Part-left _ _ _ (Part-refl _)))

  lookup-Part :
      (k : Text) (v : Value) (m : Fields)
      → lookup k m ≡ some v
      → Part (value_text show_float v) (fields_text show_float m)
  unfolding lookup fields_text
  lookup-Part k v nil_map h = cc
  lookup-Part k v end h = cc
  lookup-Part k v (field j w m) h = elim (Bool-cases (text_eq j k)) [
    | inl same ↦
        rw (some-eq (rw (same, lookup) at h))
          (Part-left _ _ (fields_text show_float m) (Part-refl (value_text show_float v)))
    | inr other ↦
        Part-right _ _ _ (value-EndsLine show_float w) (lookup-Part k v m (rw (other, lookup) at h))
  ]

  -- A text in a map is empty or a line of what is written of the map.
  pub string_at-Part :
      (k : Text) (m : Fields)
      → (string_at k m ≡ []) ⊎ Part (string_at k m ++ 10 ∷ []) (fields_text show_float m)
  unfolding string_at value_text
  string_at-Part k m = go (lookup k m) refl
    where
      go :
          (o : Option Value)
          → lookup k m ≡ o
          → (string_or_empty o ≡ [])
            ⊎ Part (string_or_empty o ++ 10 ∷ []) (fields_text show_float m)
      go (some (str t)) e = inr (lookup-Part k (str t) m e)
      go _ e = inl refl

  -- The map is written out within the text.
  abbrev pub Written : Text → Fields → Type 0
  Written s m = Part (fields_text show_float m) s

  Written-right :
      (s t : Text) (ms : List Fields) → EndsLine s → All (Written t) ms → All (Written (s ++ t)) ms
  Written-right s t ms ends h =
      All-weaken (Written t) (Written (s ++ t)) ms (λ m. Part-right _ s t ends) h

  map_list-Written : (ms : Maps) → All (Written (maps_text show_float ms)) (map_list ms)
  unfolding maps_text
  map_list-Written no_map = tt
  map_list-Written (one_map m ms) = (
    Part-left _ _ _ (Part-refl _),
    Written-right _ _ (map_list ms) (fields-EndsLine show_float m) (map_list-Written ms),
  )

  objects_in-Written : (vs : Values) → All (Written (values_text show_float vs)) (objects_in vs)
  unfolding value_text
  objects_in-Written no_value = tt
  objects_in-Written (value (object m) vs) = (
    Part-left _ _ _ (Part-refl _),
    Written-right _ _ (objects_in vs) (fields-EndsLine show_float m) (objects_in-Written vs),
  )
  objects_in-Written (value v vs) =
      Written-right _ _ (objects_in vs) (value-EndsLine show_float v) (objects_in-Written vs)

  -- The maps under a key are written out within the text of the whole map.
  pub maps_at-Written :
      (k : Text) (m : Fields) → All (Written (fields_text show_float m)) (maps_at k m)
  unfolding maps_at value_text
  maps_at-Written k m = go (lookup k m) refl
    where
      within :
          (v : Value) (ms : List Fields)
          → lookup k m ≡ some v
          → All (Written (value_text show_float v)) ms
          → All (Written (fields_text show_float m)) ms
      within v ms e h =
          All-weaken (Written (value_text show_float v)) (Written (fields_text show_float m)) ms
            (λ x part. Part-trans _ _ _ part (lookup-Part k v m e)) h

      go :
          (o : Option Value) → lookup k m ≡ o → All (Written (fields_text show_float m)) (maps_of o)
      go (some (maps ms)) e = within (maps ms) (map_list ms) e (map_list-Written ms)
      go (some (array vs)) e = within (array vs) (objects_in vs) e (objects_in-Written vs)
      go _ e = tt
