-- ===== src/Disk.antt =====
-- The file system as a verifier sees it, and the bounded reads of cra_evidence/ledger.py.
use cra_evidence.Prelude.{ℕ, Text, Bytes, ltb, length, if◌then◌else◌, Bool, true, false}

-- What stands at a path: a regular file with its bytes, something else that opens, a path that the host
-- refuses to look at or to read, a path below something that is no folder, or nothing.
pub data Node : Type 0 where
  regular : Bytes → Node
  special denied below_file absent : Node

-- `beside p n` is the file `n` in the folder that the path `p` really lies in.
pub record Disk : Type 0 where
  pub at : Text → Node
  pub beside : Text → Text → Text

-- `read_regular`: the bytes, or the class of the refusal. NotRegularFile and FileTooLarge are the two
-- UnreadableFile; every other refusal is a plain OSError.
pub data Read : Type 0 where
  content : Bytes → Read
  not_regular_file file_too_large os_failure : Read

unfoldable pub read_node : ℕ → Node → Read
read_node cap (regular b) = if ltb cap (length b) then file_too_large else content b
read_node cap special = not_regular_file
read_node cap denied = os_failure
read_node cap below_file = os_failure
read_node cap absent = os_failure

unfoldable pub read_regular : Disk → ℕ → Text → Read
unfolding read_node
read_regular disk cap path = read_node cap (disk.at path)

-- `_present` of verify_pack.py: only a path with nothing there is absent.
unfoldable pub is_there : Node → Bool
is_there absent = false
is_there below_file = false
is_there _ = true

unfoldable pub present : Disk → Text → Bool
unfolding is_there
present disk path = is_there (disk.at path)
