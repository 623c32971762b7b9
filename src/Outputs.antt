-- ===== src/Outputs.antt =====
-- cra_evidence/outputs.py: a file is written whole to a temporary one and renamed, or nothing new is there.
pub mod Whole
use cra_evidence.Prelude.{
  ℕ, Text, Bytes, Bool, true, false, not, ◌&&◌, ◌||◌, ◌==◌, if◌then◌else◌, List, [], ◌∷◌, ◌++◌,
  Option, none, some, take, drop, is_empty, codes, text_eq, Result, ok, raised, output_not_written,
  value_error, any, guard,
}

-- The regular files that a command writes, by their paths.
abbrev pub Files : Type 0
Files = Text → Option Bytes

unfoldable pub put : Text → Bytes → Files → Files
put p b fs = λ q. if text_eq q p then some b else fs q

unfoldable pub remove : Text → Files → Files
remove p fs = λ q. if text_eq q p then none else fs q

-- os.replace
unfoldable pub rename : Text → Text → Files → Files
rename tmp path fs = λ q. if text_eq q path then fs tmp else if text_eq q tmp then none else fs q

-- What is written: a str, which is encoded as UTF-8, or bytes.
pub data Content : Type 0 where
  of_str : Text → Content
  of_bytes : Bytes → Content

-- `encode` is str.encode("utf-8"), which has no result where it raises.
unfoldable pub content_bytes : (Text → Option Bytes) → Content → Option Bytes
content_bytes encode (of_str s) = encode s
content_bytes encode (of_bytes b) = some b

-- What the host decides: whether the encoding of the file system takes the name, the open, the bytes that each write takes (it fails behind the last one), fsync and
-- close, the rename, and the removal of what was left.
pub record Output : Type 0 where
  pub name_encoded : Bool
  pub opened : Bool
  pub taken : List ℕ
  pub synced : Bool
  pub replaced : Bool
  pub removed : Bool

-- The loop of `write_tmp`: what reached the file, and whether all of it did.
unfoldable pub write_loop : List ℕ → Bytes → Bytes × Bool
write_loop [] rest = ([], is_empty rest)
write_loop (n ∷ ns) rest =
    let more = write_loop ns (drop n rest) in
    if is_empty rest
    then ([], true)
    else if n == 0
    then ([], false)
    else (take n rest ++ more.0, more.1)

-- `_unlink_quietly`
unfoldable pub unlink_quietly : Output → Text → Files → Files
unfolding remove
unlink_quietly o tmp fs = if o.removed then remove tmp fs else fs

abbrev pub exists : Option Bytes → Bool
exists none = false
exists (some b) = true

-- A name that os.open refuses with a ValueError: one with a NUL in it, or that cannot be encoded.
unfoldable pub is_bad_path : Output → Text → Bool
is_bad_path o tmp = any (λ c. c == 0) tmp || not o.name_encoded

-- From os.open on; O_EXCL refuses a name that is there.
unfoldable pub write_bytes : Output → Text → Bytes → Files → Result (Unit {0}) × Files
unfolding put write_loop unlink_quietly
write_bytes o tmp text fs =
    let (written, whole) = write_loop o.taken text in
    if not o.opened || exists (fs tmp)
    then (raised output_not_written, fs)
    else if whole && o.synced
    then (ok tt, put tmp written fs)
    else (raised output_not_written, unlink_quietly o tmp (put tmp written fs))

-- Neither the UnicodeEncodeError of the encoding nor the ValueError of the open is caught.
unfoldable pub write_tmp :
    (Text → Option Bytes) → Output → Text → Content → Files → Result (Unit {0}) × Files
unfolding content_bytes is_bad_path write_bytes
write_tmp encode o tmp content fs = elim (content_bytes encode content) [
  | none ↦ (raised value_error, fs)
  | some b ↦ if is_bad_path o tmp then (raised value_error, fs) else write_bytes o tmp b fs
]

unfoldable pub commit_tmp : Output → Text → Text → Files → Result (Unit {0}) × Files
unfolding rename unlink_quietly
commit_tmp o tmp path fs =
    if o.replaced
    then (ok tt, rename tmp path fs)
    else (raised output_not_written, unlink_quietly o tmp fs)

-- `<path>.<16 hex>.tmp`
unfoldable pub tmp_name : Text → Text → Text
tmp_name path token = path ++ (b'.' ∷ (token ++ codes ".tmp"))

unfoldable pub then_commit :
    Output → Text → Text → Result (Unit {0}) × Files → Result (Unit {0}) × Files
unfolding commit_tmp
then_commit o tmp path (raised e, fs) = (raised e, fs)
then_commit o tmp path (ok u, fs) = commit_tmp o tmp path fs

unfoldable pub write_file :
    (Text → Option Bytes) → Output → Text → Text → Content → Files → Result (Unit {0}) × Files
unfolding write_tmp then_commit tmp_name
write_file encode o token path content fs =
    let tmp = tmp_name path token in then_commit o tmp path (write_tmp encode o tmp content fs)

abbrev ends_in_slash : Text → Bool
ends_in_slash [] = false
ends_in_slash (c ∷ []) = c == b'/'
ends_in_slash (c ∷ d ∷ s) = ends_in_slash (d ∷ s)

unfoldable pub refuse_directory : (Text → Bool) → Text → Result (Unit {0})
refuse_directory is_dir path = guard (not (ends_in_slash path || is_dir path)) output_not_written
