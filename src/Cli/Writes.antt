-- ===== src/Cli/Writes.antt =====
-- The writes of the command line tool: an `io.Writer` and a `text/tabwriter` over it, whose state is `O`.
-- A write returns its error, and the code returns at the first one.
use traficctl.Prelude.{List, [], ◌∷◌, Option, none, some, String}

pub record Output (O : Type 0) : Type 0 where
  pub print : O → String → O × Option String
  pub open_table : O → O
  pub row : O → String → O × Option String
  pub flush : O → O × Option String

abbrev pub Write : Type 0 → Type 0
Write O = O → O × Option String

module _ {O : Type 0} where
  abbrev pub done : Write O
  done o = (o, none)

  abbrev pub stop : String → Write O
  stop e o = (o, some e)

  abbrev pub after : O × Option String → Write O → O × Option String
  after (o, none) k = k o
  after (o, some e) k = (o, some e)

  -- `if _, err := …; err != nil { return err }`
  infixl 5 ◌>>◌
  abbrev pub ◌>>◌ : Write O → Write O → Write O
  ◌>>◌ m k o = after (m o) k

  abbrev pub each : {A : Type 0} → (A → Write O) → List A → Write O
  each f [] = done
  each f (x ∷ xs) = f x >> each f xs

module _ {O : Type 0} (out : Output O) where
  abbrev pub line : String → Write O
  line s o = out.print o s

  abbrev pub cells : String → Write O
  cells s o = out.row o s

  abbrev pub flush_table : Write O
  flush_table o = out.flush o

  -- `tabwriter.NewWriter(out, 0, 0, 2, ' ', 0)`
  abbrev pub new_table : Write O
  new_table o = (out.open_table o, none)
