-- ===== src/Adapters/Filesystem.antt =====
-- src/constrail/adapters/filesystem.py: the adapter for reading, writing, listing and deleting files.
-- The file system is a `Files` on a type of worlds; a path that it has resolved is the list of its parts.
pub mod Effects
use constrails.Prelude.{
  ℕ, pos, String, Bool, true, false, not, ◌&&◌, Option, none, some, List, [], ◌∷◌, if◌then◌else◌,
  lookup, concat, member, length, codes, ◌==◌,
}
use constrails.Models.{
  Value, null, bool, int, str, obj, arr, field, end, nil, cons, Items, Fields, ToolCall, ToolResult,
  success, error,
}
use constrails.Capability.{is_true}
use constrails.Broker.{Outcome, returned, raised, Adapter, Trace}

abbrev pub Parts : Type 0
Parts = List String

-- A result, or an exception with its text.
pub data Fallible (A : Type 0) : Type 0 where
  value : A → Fallible A
  exception : String → Fallible A

pub record Entry : Type 0 where
  pub name : String
  pub is_file : Bool
  pub size : ℕ

-- `pathlib` and `shutil` in a world. `resolve` is of a text behind a directory. What writes gives the text of
-- its exception, if there is one, and the world after it.
pub record Files (World : Type 0) : Type 0 where
  pub resolve : World → Parts → String → Fallible Parts
  pub exists : World → Parts → Bool
  pub is_file : World → Parts → Bool
  pub is_dir : World → Parts → Bool
  pub read_text : World → Parts → Fallible String
  pub iterdir : World → Parts → Fallible (List Entry)
  pub make_dirs : World → Parts → Option String × World
  pub write_text : World → Parts → String → Option String × World
  pub unlink : World → Parts → Option String × World
  pub rmtree : World → Parts → Option String × World
  pub path_text : Parts → String

-- `joined.relative_to(base_path)` does not raise.
unfoldable pub relative_to : Parts → Parts → Bool
relative_to path [] = true
relative_to [] (b ∷ base) = false
relative_to (p ∷ path) (b ∷ base) = p == b && relative_to path base

unfoldable pub parent : Parts → Parts
parent [] = []
parent (p ∷ []) = []
parent (p ∷ q ∷ path) = p ∷ parent (q ∷ path)

abbrev failed_with : String → Outcome
failed_with message = returned (record {
  success = false;
  error = some message;
  payload = none;
  metadata = [];
  status = error;
})

abbrev done : Value → Outcome
done payload = returned (record {
  success = true;
  error = none;
  payload = some payload;
  metadata = [];
  status = success;
})

-- `except Exception as e`
abbrev operation_failed : String → Outcome
operation_failed e = failed_with (concat ("Filesystem operation failed: " ∷ e ∷ []))

abbrev entry_value : Entry → Value
entry_value e = obj (
    field "name" (str e.name) (
      field "type" (str (if e.is_file then "file" else "directory"))
        (field "size" (int (pos (if e.is_file then e.size else 0))) end)))

abbrev entries_value : List Entry → Items
entries_value [] = nil
entries_value (e ∷ es) = cons (entry_value e) (entries_value es)

abbrev pub is_text : String → Value → Bool
is_text s (str t) = t == s
is_text s _ = false

abbrev pub operation_of : Option Value → Value
operation_of none = str "read"
operation_of (some v) = v

-- The tools that `_execute_tool` registers with this adapter.
abbrev pub file_tools : List String
file_tools = "read_file" ∷ "write_file" ∷ "delete_file" ∷ "list_directory" ∷ []

-- What the library says of a value of the wrong type.
pub record Messages : Type 0 where
  pub text_of : Value → String
  pub no_path : Value → String
  pub no_text : Value → String

module _ {World : Type 0} (files : Files World) (messages : Messages) where
  unfoldable pub read : Parts → World → Outcome
  read path w =
      if not (files.exists w path)
      then failed_with (concat ("File not found: " ∷ files.path_text path ∷ []))
      else if not (files.is_file w path)
      then failed_with (concat ("Not a file: " ∷ files.path_text path ∷ []))
      else elim (files.read_text w path) [
        | value content ↦
            done
              (obj (field "content" (str content) (field "path" (str (files.path_text path)) end)))
        | exception e ↦ operation_failed e
      ]

  unfoldable pub list : Parts → World → Outcome
  list path w =
      if not (files.exists w path)
      then failed_with (concat ("Directory not found: " ∷ files.path_text path ∷ []))
      else if not (files.is_dir w path)
      then failed_with (concat ("Not a directory: " ∷ files.path_text path ∷ []))
      else elim (files.iterdir w path) [
        | value entries ↦ done (
            obj (
              field "path" (str (files.path_text path))
                (field "items" (arr (entries_value entries)) end)))
        | exception e ↦ operation_failed e
      ]

  abbrev outcome_of : Value → Option String → Outcome
  outcome_of payload none = done payload
  outcome_of payload (some e) = operation_failed e

  -- `path.write_text(content)`, which refuses what is no text.
  unfoldable pub write_value : Parts → Value → World → Outcome × World
  write_value path (str text) w =
      let (problem, w') = files.write_text w path text in
      (
        outcome_of
            (obj (
              field "path" (str (files.path_text path))
                (field "bytes_written" (int (pos (length (codes text)))) end)))
            problem,
        w',
      )
  write_value path content w = (operation_failed (messages.no_text content), w)

  -- The content is written once the directories are there.
  unfoldable pub write : Parts → Value → World → Outcome × World
  write path content w =
      let (problem, w') = files.make_dirs w (parent path) in
      elim problem [ some e ↦ (operation_failed e, w') | none ↦ write_value path content w' ]

  unfoldable pub delete : Parts → World → Outcome × World
  delete path w =
      let payload = obj (field "path" (str (files.path_text path)) end) in
      if not (files.exists w path)
      then (failed_with (concat ("Path does not exist: " ∷ files.path_text path ∷ [])), w)
      else if files.is_file w path
      then (let (problem, w') = files.unlink w path in (outcome_of payload problem, w'))
      else if files.is_dir w path
      then (let (problem, w') = files.rmtree w path in (outcome_of payload problem, w'))
      else (done payload, w)

  unfoldable pub write_content : Option Value → Parts → World → Outcome × World
  write_content none target w = (failed_with "Missing 'content' parameter for write", w)
  write_content (some null) target w = (failed_with "Missing 'content' parameter for write", w)
  write_content (some content) target w = write target content w

  -- The branches of `execute`, with the operation and the content of the call.
  unfoldable pub dispatch : Value → Option Value → Parts → World → Outcome × World
  unfolding read list delete
  dispatch operation content target w =
      if is_text "read" operation
      then (read target w, w)
      else if is_text "write" operation
      then write_content content target w
      else if is_text "list" operation
      then (list target w, w)
      else if is_text "delete" operation
      then delete target w
      else (failed_with (concat ("Unknown operation '" ∷ messages.text_of operation ∷ "'" ∷ [])), w)

  -- `_resolve_path` and the rest; the two checks of the path raise out of `execute`.
  unfoldable pub execute : Parts → ToolCall → World → Outcome × World
  unfolding dispatch
  execute base call w = elim (lookup "path" call.parameters) [
    | none ↦ (raised "Missing 'path' parameter", w)
    | some v ↦ if not (is_true v) then (raised "Missing 'path' parameter", w) else elim v [
      | str path ↦ elim (files.resolve w base path) [
        | exception e ↦ (raised e, w)
        | value target ↦
            if not (relative_to target base)
            then (raised (concat ("Path '" ∷ path ∷ "' attempts to escape sandbox" ∷ [])), w)
            else dispatch (operation_of (lookup "operation" call.parameters))
                (lookup "content" call.parameters) target w
      ]
      | other ↦ (raised (messages.no_path other), w)
    ]
  ]

  -- The world after the calls that adapters were given, as far as they went to this adapter.
  unfoldable pub world_after : Parts → World → Trace → World
  world_after base start [] = start
  world_after base start (call ∷ trace) =
      let w = world_after base start trace in
      if member call.tool file_tools then (execute base call w).1 else w

  -- The adapter as the broker sees it.
  abbrev pub adapter : Parts → World → Adapter
  adapter base start trace call = (execute base call (world_after base start trace)).0
