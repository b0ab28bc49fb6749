-- ===== src/Tools/Files.antt =====
-- tools/fs_read_file.go, tools/fs_list_dir.go and tools/fs_grep_file.go: the tools on files.
pub mod Confined
pub mod Matches
mod Tests
use agent_orchestrator_go.Base.{
  ℕ, ℤ, suc, pos, Bool, true, false, not, ◌&&◌, ◌||◌, List, [], ◌∷◌, ◌++◌, map, Option, some, none,
  Text, txt, text_eq, contains, has_prefix, byte_length, leb, if◌then◌else◌, Result, ok, err, ◌>>=◌,
  length,
}
use agent_orchestrator_go.Value.{
  str, int, bool, maps, Maps, no_map, one_map, Fields, end, field, lookup,
}
use agent_orchestrator_go.Value.Read.{string_at}
use agent_orchestrator_go.Tools.{Call, ToolResult, Executor, invalid_args, tool_failed}
use agent_orchestrator_go.Tools.Registry.{Tool}

-- What a call of package os returns; `missing` is the error for which `os.IsNotExist` holds.
pub data OsResult (A : Type 0) : Type 0 where
  found : A → OsResult A
  missing : OsResult A
  os_failed : Text → OsResult A

-- An entry of `os.ReadDir`, with the size where `Info` gives one.
pub record DirEntry : Type 0 where
  pub name : Text
  pub is_dir : Bool
  pub size : Option ℤ

-- A `bufio.Scanner` on an open file: its lines, each with what `Err` says after it, and what `Err`
-- says at the end.
pub record Scanner : Type 0 where
  pub lines : List (Text × Option Text)
  pub last_error : Option Text

-- Packages path/filepath, os and bufio, on files in the state `S`, which no one else changes during a
-- call; `stat` says whether there is a directory, or its error. With it, Unicode's table of
-- lower-case letters.
pub record System (S : Type 0) : Type 0 where
  pub clean : Text → Text
  pub is_abs : Text → Bool
  pub join_path : Text → Text → Text
  pub abs : Text → Text
  pub base : Text → Text
  pub stat : S → Text → Result Bool
  pub read_file : S → Text → OsResult Text
  pub read_dir : S → Text → OsResult (List DirEntry)
  pub open_file : S → Text → OsResult Scanner
  pub lower : ℕ → ℕ

-- `string(filepath.Separator)`
abbrev pub separator : Text
separator = b'/' ∷ []

-- `if !strings.HasPrefix(resolved, root+separator) && resolved != root { ... }`
unfoldable pub is_under : Text → Text → Bool
is_under root p = has_prefix (root ++ separator) p || text_eq p root

-- The second half of `safePath`, of a path that is not absolute.
unfoldable pub below_root : {S : Type 0} → System S → Text → Text → Result Text
unfolding is_under
below_root sys root cleaned =
    if has_prefix (txt "..") cleaned
    then err (invalid_args (txt "path must be relative and within root directory"))
    else if not (is_under (sys.abs root) (sys.abs (sys.join_path root cleaned)))
    then err (invalid_args (txt "path escapes root directory"))
    else ok (sys.abs (sys.join_path root cleaned))

abbrev pub if_there : Text → Text → Result Bool → Result Text
if_there rel p (ok _) = ok p
if_there rel p (err _) = err (tool_failed (txt "file not found: " ++ rel))

-- `safePath` of `ReadFileTool` and of `GrepFileTool`.
unfoldable pub safe_path : {S : Type 0} → System S → Text → S → Text → Result Text
unfolding below_root
safe_path sys root s rel =
    if sys.is_abs (sys.clean rel)
    then if_there rel (sys.clean rel) (sys.stat s (sys.clean rel))
    else below_root sys root (sys.clean rel)

abbrev pub if_directory : (Text → Text) → Text → Text → Result Bool → Result Text
if_directory failure rel p (err e) = err (tool_failed (failure e))
if_directory failure rel p (ok false) = err (invalid_args (rel ++ txt " is not a directory"))
if_directory failure rel p (ok true) = ok p

-- `safePath` of `ListDirTool`.
unfoldable pub safe_directory : {S : Type 0} → System S → Text → S → Text → Result Text
unfolding below_root
safe_directory sys root s rel =
    if sys.is_abs (sys.clean rel)
    then if_directory (λ _. txt "path not found: " ++ rel) rel (sys.clean rel)
        (sys.stat s (sys.clean rel))
    else below_root sys root (sys.clean rel) >>= λ p.
        if_directory (λ e. txt "stat error: " ++ e) rel p (sys.stat s p)

-- `call.Args[key].(string)`, which must not be empty.
unfoldable pub required_arg : Text → Fields → Result Text
required_arg key args =
    if text_eq (string_at key args) []
    then err (invalid_args (txt "'" ++ (key ++ txt "' is required and must be a string")))
    else ok (string_at key args)

-- What the call found, with the message where it is missing, and before another error.
abbrev pub found_or : {A : Type 0} → Text → Text → OsResult A → Result A
found_or absent prefix (found a) = ok a
found_or absent prefix missing = err (tool_failed absent)
found_or absent prefix (os_failed e) = err (tool_failed (prefix ++ e))

abbrev pub read_result : {S : Type 0} → System S → Text → Text → ToolResult
read_result sys p data_text = record {
  result_tool = txt "fs.read_file";
  content = field (txt "content") (str data_text) (
      field (txt "size") (int (pos (byte_length data_text)))
        (field (txt "filename") (str (sys.base p)) end));
}

-- The size of an entry, 0 where it is not known.
abbrev pub size_or_zero : Option ℤ → ℤ
size_or_zero (some n) = n
size_or_zero none = pos 0

abbrev pub entry_map : DirEntry → Fields
entry_map e =
    field (txt "name") (str e.name)
      (field (txt "is_dir") (bool e.is_dir) (field (txt "size") (int (size_or_zero e.size)) end))

abbrev pub entry_maps : List DirEntry → Maps
entry_maps [] = no_map
entry_maps (e ∷ entries) = one_map (entry_map e) (entry_maps entries)

abbrev pub list_result : Text → List DirEntry → ToolResult
list_result rel entries = record {
  result_tool = txt "fs.list_dir";
  content =
      field (txt "entries") (maps (entry_maps entries))
        (field (txt "count") (int (pos (length entries))) (field (txt "path") (str rel) end));
}

-- A matching line, with its number.
abbrev pub Match : Type 0
Match = ℕ × Text

abbrev pub max_grep_matches : ℕ
max_grep_matches = 200

unfoldable pub is_match : (ℕ → ℕ) → Text → Text → Bool
is_match lower keyword line = contains (map lower keyword) (map lower line)

-- The loop over the lines, with how many lines were read and the matches so far: the matches and what
-- `Err` says where the loop ends.
unfoldable pub scan_lines :
    (Text → Bool)
    → ℕ
    → List Match
    → List (Text × Option Text)
    → Option Text
    → List Match × Option Text
scan_lines test n matches [] last_error = (matches, last_error)
scan_lines test n matches ((line, e) ∷ lines) last_error =
    let more = scan_lines test (suc n) (matches ++ (suc n, line) ∷ []) lines last_error in
    let rest = scan_lines test (suc n) matches lines last_error in
    if test line
    then if leb max_grep_matches (length (matches ++ (suc n, line) ∷ []))
      then (matches ++ (suc n, line) ∷ [], e)
      else more
    else rest

abbrev pub match_map : Match → Fields
match_map m = field (txt "line_number") (int (pos m.0)) (field (txt "text") (str m.1) end)

abbrev pub match_maps : List Match → Maps
match_maps [] = no_map
match_maps (m ∷ matches) = one_map (match_map m) (match_maps matches)

abbrev pub grep_result : Text → Text → List Match → ToolResult
grep_result rel keyword matches = record {
  result_tool = txt "fs.grep_file";
  content = field (txt "matches") (maps (match_maps matches)) (
      field (txt "match_count") (int (pos (length matches)))
        (field (txt "path") (str rel) (field (txt "keyword") (str keyword) end)));
}

abbrev pub scanned : Text → Text → List Match × Option Text → Result ToolResult
scanned rel keyword (matches, none) = ok (grep_result rel keyword matches)
scanned rel keyword (matches, some e) = err (tool_failed (txt "scan error: " ++ e))

module _ {S : Type 0} (sys : System S) (root : Text) where
  -- `ReadFileTool.Execute`
  unfoldable pub read_file : S → Fields → Result ToolResult
  unfolding safe_path required_arg
  read_file s args = required_arg (txt "path") args >>= λ rel. safe_path sys root s rel >>= λ p.
      found_or (txt "file not found: " ++ rel) (txt "read error: ") (sys.read_file s p)
      >>= λ data_text. ok (read_result sys p data_text)

  -- `ListDirTool.Execute`
  unfoldable pub list_dir : S → Fields → Result ToolResult
  unfolding safe_directory required_arg
  list_dir s args = required_arg (txt "path") args >>= λ rel. safe_directory sys root s rel >>= λ p.
      found_or (txt "directory not found: " ++ rel) (txt "read dir error: ") (sys.read_dir s p)
      >>= λ entries. ok (list_result rel entries)

  -- `GrepFileTool.Execute`
  unfoldable pub grep_file : S → Fields → Result ToolResult
  unfolding safe_path required_arg scan_lines is_match
  grep_file s args = required_arg (txt "path") args >>= λ rel.
      required_arg (txt "keyword") args >>= λ keyword. safe_path sys root s rel >>= λ p.
      found_or (txt "file not found: " ++ rel) (txt "open error: ") (sys.open_file s p)
      >>= λ scanner.
          scanned rel keyword
            (scan_lines (is_match sys.lower keyword) 0 [] scanner.lines scanner.last_error)

-- A tool that leaves the files as they are.
abbrev pub file_tool : {S : Type 0} → Text → (S → Fields → Result ToolResult) → Tool S
file_tool name run = record {
  name = name;
  spec_name = name;
  execute = λ s call. (run s call.args, s);
}

-- The three tools, as cmd/server/main.go registers them.
unfoldable pub file_tools : {S : Type 0} → System S → Text → List (Text × Tool S)
unfolding read_file list_dir grep_file
file_tools sys root =
    (txt "fs.grep_file", file_tool (txt "fs.grep_file") (grep_file sys root))
    ∷ (txt "fs.list_dir", file_tool (txt "fs.list_dir") (list_dir sys root))
    ∷ (txt "fs.read_file", file_tool (txt "fs.read_file") (read_file sys root))
    ∷ []
