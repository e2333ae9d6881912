-- ===== src/Blocks/BlockType.antt =====
-- src/blocks/mod.rs: the kind of a block, and its number on the wire.
use feeless.Common.{ℕ, Bool, Result, ok, err, Error, ◌==◌, if◌then◌else◌}

pub data BlockType : Type 0 where
  invalid not_a_block send receive open_block change state : BlockType

unfoldable pub as_u8 : BlockType → ℕ
as_u8 invalid = 0
as_u8 not_a_block = 1
as_u8 send = 2
as_u8 receive = 3
as_u8 open_block = 4
as_u8 change = 5
as_u8 state = 6

-- `TryFrom<u8>`
unfoldable pub try_from : ℕ → Result BlockType
try_from v =
    if v == 0
    then ok invalid
    else if v == 1
    then ok not_a_block
    else if v == 2
    then ok send
    else if v == 3
    then ok receive
    else if v == 4
    then ok open_block
    else if v == 5
    then ok change
    else if v == 6
    then ok state
    else err (Error.invalid_block_type v)

-- The derived `PartialEq`.
unfoldable pub same : BlockType → BlockType → Bool
unfolding as_u8
same s t = as_u8 s == as_u8 t
