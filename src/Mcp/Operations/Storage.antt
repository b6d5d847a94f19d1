-- ===== src/Mcp/Operations/Storage.antt =====
-- The files of apps/editor/src-tauri/src/mcp/operations.rs: the operations are appended to one file,
-- which takes the place of an older one when it is full. A file is its size.
use norves_editor.Common.{
  ℕ, ◌+◌, ◌≡◌, ◌≤◌, inl, inr, Bool, true, false, Option, none, some, arith, if◌then◌else◌, ltb, min,
  Bool-cases, Option-cases,
}

-- The sizes of `mcp-operations.jsonl` and `mcp-operations.jsonl.1`, if they exist.
pub record Files : Type 0 where
  pub current : Option ℕ
  pub previous : Option ℕ

-- Which calls of the file system fail, and after how many bytes a failing write stops.
pub record Faults : Type 0 where
  pub metadata : Bool
  pub remove_previous : Bool
  pub remove_current : Bool
  pub rename : Bool
  pub open_file : Bool
  pub write : Option ℕ

-- 1 MiB
abbrev pub max_bytes : ℕ
max_bytes = 1048576

abbrev pub size_of : Option ℕ → ℕ
size_of none = 0
size_of (some n) = n

-- Makes room for a record: whether it went well, and the files.
unfoldable pub rotate : Faults → Files → Bool × Files
rotate faults files =
    let removed = record files { previous = none } in
    if faults.remove_previous
    then (false, files)
    else if ltb max_bytes (size_of files.current)
    then (if faults.remove_current
        then (false, removed)
        else (true, record removed { current = none }))
    else if faults.rename
    then (false, removed)
    else (true, record { current = none; previous = files.current })

-- `OpenOptions::new().create(true).append(true).open(path)?.write_all(&bytes)`
unfoldable pub append_bytes : Faults → ℕ → Files → Bool × Files
append_bytes faults n files = if faults.open_file then (false, files) else elim faults.write [
  | none ↦ (true, record files { current = some (size_of files.current + n) })
  | some part ↦ (false, record files { current = some (size_of files.current + min part n) })
]

-- `json` is the number of bytes of the record as JSON, if it has one.
unfoldable pub append_record : Faults → Option ℕ → Files → Bool × Files
unfolding rotate append_bytes
append_record faults none files = (false, files)
append_record faults (some json) files =
    let n = json + 1 in
    if ltb max_bytes n
    then (false, files)
    else if faults.metadata
    then (false, files)
    else if ltb max_bytes (size_of files.current + n)
    then (let made = rotate faults files in if made.0 then append_bytes faults n made.1 else made)
    else append_bytes faults n files

pub record AreSmall (files : Files) : Type 0 where
  pub current : size_of files.current ≤ max_bytes
  pub previous : size_of files.previous ≤ max_bytes

append_bytes-AreSmall :
    (faults : Faults) (n : ℕ) (files : Files)
    → size_of files.current + n ≤ max_bytes
    → AreSmall files
    → AreSmall (append_bytes faults n files).1
unfolding append_bytes
append_bytes-AreSmall faults n files room h = elim (Bool-cases faults.open_file) [
  | inl fails ↦ rw (fails, append_bytes) h
  | inr opens ↦ elim (Option-cases faults.write) [
    | inl e ↦ rw (opens, e, append_bytes) (record { current = omega arith; previous = h.previous })
    | inr (part, e) ↦
        rw (opens, e, append_bytes) (record { current = omega arith; previous = h.previous })
  ]
]

rotate-AreSmall :
    (faults : Faults) (files : Files) → AreSmall files → AreSmall (rotate faults files).1
unfolding rotate
rotate-AreSmall faults files h = record { current = ground arith; previous = ground arith }

rotate-empty :
    (faults : Faults) (files : Files)
    → (rotate faults files).0 ≡ true
    → (rotate faults files).1.current ≡ none
unfolding rotate
rotate-empty faults files h = ground arith

-- Whatever fails, and when, the files that were within the limit stay within it.
pub append_record-AreSmall :
    (faults : Faults) (json : Option ℕ) (files : Files)
    → AreSmall files
    → AreSmall (append_record faults json files).1
unfolding append_record
append_record-AreSmall faults none files h = h
append_record-AreSmall faults (some json) files h = elim (Bool-cases (ltb max_bytes (json + 1))) [
  | inl long ↦ rw (long, append_record) h
  | inr short ↦ elim (Bool-cases faults.metadata) [
    | inl fails ↦ rw (short, fails, append_record) h
    | inr known ↦ elim (Bool-cases (ltb max_bytes (size_of files.current + (json + 1)))) [
      | inr room ↦
          rw (short, known, room, append_record)
            (append_bytes-AreSmall faults (json + 1) files (ground arith) h)
      | inl full ↦ elim (Bool-cases (rotate faults files).0) [
        | inl made ↦
            rw (short, known, full, made, append_record)
              (append_bytes-AreSmall faults (json + 1) (rotate faults files).1
                (ground (arith, rotate-empty faults files made)) (rotate-AreSmall faults files h))
        | inr not_made ↦
            rw (short, known, full, not_made, append_record) (rotate-AreSmall faults files h)
      ]
    ]
  ]
]
