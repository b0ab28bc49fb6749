-- ===== src/Tools/Files/Confined.antt =====
-- tools/fs_read_file.go, tools/fs_list_dir.go and tools/fs_grep_file.go: a path that is not absolute
-- leads to nothing outside the root.
use agent_orchestrator_go.Base.{
  ℕ, Bool, true, false, ◌≡◌, refl, sym, ap, ◌∙◌, subst, ◌⊎◌, inl, inr, List, [], ◌++◌, Option, some,
  none, Text, txt, text_eq, text_eq_iff, has_prefix, Result, ok, err, arith, take, Bool-cases,
  ok-injective, bind-ok, has_prefix-split,
}
use agent_orchestrator_go.Value.{Fields}
use agent_orchestrator_go.Value.Read.{string_at}
use agent_orchestrator_go.Tools.{ToolResult}
use agent_orchestrator_go.Tools.Files.{
  OsResult, found, missing, os_failed, DirEntry, Scanner, System, separator, is_under, below_root,
  safe_path, if_directory, safe_directory, required_arg, found_or, read_result, list_result,
  is_match, grep_result, scanned, max_grep_matches, Match, read_file, list_dir, grep_file,
}
use agent_orchestrator_go.Tools.Files.Matches.{matching_lines, scan_lines-take}

-- The path is the root, or the root, a separator and what is below it.
abbrev pub IsUnder : Text → Text → Type 0
IsUnder root p = (p ≡ root) ⊎ ((rest : Text) × (p ≡ (root ++ separator) ++ rest))

-- The path that the given one, cleaned and joined to the root, leads to; and it is under the root.
abbrev pub Reaches : {S : Type 0} → System S → Text → Text → Text → Type 0
Reaches sys root rel p =
    (p ≡ sys.abs (sys.join_path root (sys.clean rel))) × IsUnder (sys.abs root) p

-- The first lines of a file that contain the keyword, letter case aside.
abbrev pub first_matches : (ℕ → ℕ) → Text → Scanner → List Match
first_matches lower keyword scanner =
    take max_grep_matches (matching_lines (is_match lower keyword) 0 scanner.lines)

is_under-IsUnder : (root p : Text) → is_under root p ≡ true → IsUnder root p
unfolding is_under
is_under-IsUnder root p h = elim (Bool-cases (has_prefix (root ++ separator) p)) [
  | inl below ↦ inr (_, has_prefix-split (root ++ separator) p below)
  | inr other ↦ inl ((text_eq_iff p root).0 (ground (arith, h, other)))
]

required_arg-ok :
    (key : Text) (args : Fields) (t : Text) → required_arg key args ≡ ok t → t ≡ string_at key args
unfolding required_arg
required_arg-ok key args t h = elim (Bool-cases (text_eq (string_at key args) [])) [
  | inl absent ↦ cc
  | inr there ↦ sym (ok-injective (rw (there, required_arg) at h))
]

pub found_or-ok :
    {A : Type 0} (absent prefix : Text) (o : OsResult A) (a : A)
    → found_or absent prefix o ≡ ok a
    → o ≡ found a
found_or-ok absent prefix (found b) a h = cc (h)
found_or-ok absent prefix missing a h = cc
found_or-ok absent prefix (os_failed e) a h = cc

if_directory-ok :
    (failure : Text → Text) (rel p q : Text) (r : Result Bool)
    → if_directory failure rel p r ≡ ok q
    → (r ≡ ok true) × (p ≡ q)
if_directory-ok failure rel p q (ok true) h = (refl, ok-injective h)
if_directory-ok failure rel p q (ok false) h = cc
if_directory-ok failure rel p q (err e) h = cc

module _ {S : Type 0} (sys : System S) (root : Text) (s : S) where
  below_root-IsUnder :
      (cleaned p : Text)
      → below_root sys root cleaned ≡ ok p
      → (p ≡ sys.abs (sys.join_path root cleaned)) × IsUnder (sys.abs root) p
  unfolding below_root
  below_root-IsUnder cleaned p h = elim (Bool-cases (has_prefix (txt "..") cleaned)) [
    | inl up ↦ cc
    | inr down ↦
        elim (Bool-cases (is_under (sys.abs root) (sys.abs (sys.join_path root cleaned)))) [
          | inr escapes ↦ cc
          | inl under ↦
              let same = ok-injective (rw (down, under, below_root) at h) in
              (
                sym same,
                subst (IsUnder (sys.abs root)) same
                    (is_under-IsUnder (sys.abs root) (sys.abs (sys.join_path root cleaned)) under),
              )
        ]
  ]

  safe_path-IsUnder :
      (rel p : Text)
      → sys.is_abs (sys.clean rel) ≡ false
      → safe_path sys root s rel ≡ ok p
      → Reaches sys root rel p
  unfolding safe_path
  safe_path-IsUnder rel p relative h =
      below_root-IsUnder (sys.clean rel) p (rw (relative, safe_path) at h)

  safe_directory-IsUnder :
      (rel p : Text)
      → sys.is_abs (sys.clean rel) ≡ false
      → safe_directory sys root s rel ≡ ok p
      → Reaches sys root rel p × (sys.stat s p ≡ ok true)
  unfolding safe_directory
  safe_directory-IsUnder rel p relative h =
      let (q, below, directory) = bind-ok _ _ p (rw (relative, safe_directory) at h) in
      let (there, same) = if_directory-ok _ rel q p (sys.stat s q) directory in
      subst (λ x. Reaches sys root rel x × (sys.stat s x ≡ ok true)) same
        (below_root-IsUnder (sys.clean rel) q below, there)

  -- What `fs.read_file` returns for a path that is not absolute is the file that the path, cleaned and
  -- joined to the root, leads to, with its size and its name; and that file is under the root.
  pub read_file-IsUnder :
      (args : Fields) (r : ToolResult)
      → sys.is_abs (sys.clean (string_at (txt "path") args)) ≡ false
      → read_file sys root s args ≡ ok r
      → (p : Text) × (data_text : Text) × Reaches sys root (string_at (txt "path") args) p
        × (sys.read_file s p ≡ found data_text)
        × (r ≡ read_result sys p data_text)
  unfolding read_file
  read_file-IsUnder args r relative h =
      let (rel, given, h1) = bind-ok (required_arg (txt "path") args) _ r h in
      let (p, safe, h2) = bind-ok (safe_path sys root s rel) _ r h1 in
      let (data_text, read, made) =
        bind-ok (found_or (txt "file not found: " ++ rel) (txt "read error: ") (sys.read_file s p))
          _ r h2 in
      let named = required_arg-ok (txt "path") args rel given in
      (
        p,
        data_text,
        subst (λ t. Reaches sys root t p) named
            (safe_path-IsUnder rel p (ap (λ t. sys.is_abs (sys.clean t)) named ∙ relative) safe),
        found_or-ok (txt "file not found: " ++ rel) (txt "read error: ") (sys.read_file s p)
            data_text read,
        sym (ok-injective made),
      )

  -- What `fs.list_dir` returns for a path that is not absolute are the entries of the directory
  -- that the path, cleaned and joined to the root, leads to; and that directory is under the root.
  pub list_dir-IsUnder :
      (args : Fields) (r : ToolResult)
      → sys.is_abs (sys.clean (string_at (txt "path") args)) ≡ false
      → list_dir sys root s args ≡ ok r
      → (p : Text) × (entries : List DirEntry) × Reaches sys root (string_at (txt "path") args) p
        × (sys.stat s p ≡ ok true)
        × (sys.read_dir s p ≡ found entries)
        × (r ≡ list_result (string_at (txt "path") args) entries)
  unfolding list_dir
  list_dir-IsUnder args r relative h =
      let (rel, given, h1) = bind-ok (required_arg (txt "path") args) _ r h in
      let (p, safe, h2) = bind-ok (safe_directory sys root s rel) _ r h1 in
      let (entries, read, made) =
        bind-ok
          (found_or (txt "directory not found: " ++ rel) (txt "read dir error: ")
            (sys.read_dir s p))
          _ r h2 in
      let named = required_arg-ok (txt "path") args rel given in
      let (under, directory) =
        safe_directory-IsUnder rel p (ap (λ t. sys.is_abs (sys.clean t)) named ∙ relative) safe in
      (
        p,
        entries,
        subst (λ t. Reaches sys root t p) named under,
        directory,
        found_or-ok (txt "directory not found: " ++ rel) (txt "read dir error: ") (sys.read_dir s p)
            entries read,
        sym (ok-injective made) ∙ ap (λ t. list_result t entries) named,
      )

  scanned-ok :
      (rel keyword : Text) (p : List Match × Option Text) (r : ToolResult)
      → scanned rel keyword p ≡ ok r
      → r ≡ grep_result rel keyword p.0
  scanned-ok rel keyword (matches, none) r h = sym (ok-injective h)
  scanned-ok rel keyword (matches, some e) r h = cc

  -- What `fs.grep_file` returns for a path that is not absolute are, in their order and with their
  -- numbers, the first two hundred lines that contain the keyword, letter case aside, of the file
  -- that the path, cleaned and joined to the root, leads to; and that file is under the root.
  pub grep_file-IsUnder :
      (args : Fields) (r : ToolResult)
      → sys.is_abs (sys.clean (string_at (txt "path") args)) ≡ false
      → grep_file sys root s args ≡ ok r
      → (p : Text) × (scanner : Scanner) × Reaches sys root (string_at (txt "path") args) p
        × (sys.open_file s p ≡ found scanner)
        × (r
            ≡ grep_result
                (string_at (txt "path") args)
                (string_at (txt "keyword") args)
                (first_matches sys.lower (string_at (txt "keyword") args) scanner))
  unfolding grep_file
  grep_file-IsUnder args r relative h =
      let (rel, given, h1) = bind-ok (required_arg (txt "path") args) _ r h in
      let (keyword, asked, h2) = bind-ok (required_arg (txt "keyword") args) _ r h1 in
      let (p, safe, h3) = bind-ok (safe_path sys root s rel) _ r h2 in
      let (scanner, read, made) =
        bind-ok (found_or (txt "file not found: " ++ rel) (txt "open error: ") (sys.open_file s p))
          _ r h3 in
      let named = required_arg-ok (txt "path") args rel given in
      let sought = required_arg-ok (txt "keyword") args keyword asked in
      (
        p,
        scanner,
        subst (λ t. Reaches sys root t p) named
            (safe_path-IsUnder rel p (ap (λ t. sys.is_abs (sys.clean t)) named ∙ relative) safe),
        found_or-ok (txt "file not found: " ++ rel) (txt "open error: ") (sys.open_file s p) scanner
            read,
        scanned-ok rel keyword _ r made
            ∙ ap (grep_result rel keyword) (
                scan_lines-take (is_match sys.lower keyword) 0 [] scanner.lines scanner.last_error
                  (omega arith))
            ∙ ap (λ t. grep_result t keyword (first_matches sys.lower keyword scanner)) named
            ∙ ap
                (λ k.
                  grep_result (string_at (txt "path") args) k (first_matches sys.lower k scanner))
                sought,
      )
