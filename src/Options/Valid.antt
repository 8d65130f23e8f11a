-- ===== src/Options/Valid.antt =====
-- The whole command line keeps the options valid.
use sdparm.Prelude.{ℕ}
use sdparm.SgLib.{SgLib}
use sdparm.Options.Cases.{OptColl}
use sdparm.Options.Bounds.{IsValid}

-- A case without an argument.
abbrev Keeps : ℕ × (OptColl → OptColl) → Type 0
Keeps k = (op : OptColl) → IsValid op → IsValid (k.1 op)
