-- ===== src/Cli/Work.antt =====
-- src/cli/work.rs: generating work for a hash, at a difficulty that the options choose.
use feeless.Common.{ℕ, ◌≡◌, Bool, true, List, Option, none, some, Result, ok, if◌then◌else◌, length}
use feeless.Crypto.{Blake2b}
use feeless.Pow.Difficulty
use feeless.Pow.Work.{Subject, generate, verify}
use feeless.Pow.Work.Search.{generate-verify}

pub record WorkOpts : Type 0 where
  pub hash : List ℕ
  pub normal : Bool
  pub receive : Bool
  pub difficulty : Option ℕ

unfoldable pub choose : Option ℕ → Bool → ℕ
choose (some d) receive = d
choose none receive = if receive then Difficulty.receive else Difficulty.normal

-- `handle`, with what the search draws at random; the work is printed for debugging.
unfoldable pub handle : Blake2b → List ℕ → List ℕ → WorkOpts → Result (Option (List ℕ))
unfolding choose
handle h initial randoms o =
    generate h initial randoms (Subject.hash o.hash) (choose o.difficulty o.receive)

-- What is printed is work for the hash, at the difficulty that was given, that of a receive block where
-- that was asked for, and else that of a normal block.
handle-verify :
    (h : Blake2b) (initial randoms work : List ℕ) (o : WorkOpts)
    → length initial ≡ 8
    → handle h initial randoms o ≡ ok (some work)
    → verify h work (Subject.hash o.hash) (choose o.difficulty o.receive) ≡ ok true
unfolding handle
handle-verify h initial randoms work o n e =
    (generate-verify h (choose o.difficulty o.receive) (Subject.hash o.hash) initial randoms work n
      e).1
