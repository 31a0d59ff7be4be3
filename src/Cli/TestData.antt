-- ===== src/Cli/TestData.antt =====
-- An output that keeps what is printed, the last line first, for the tests.
use traficctl.Prelude.{List, ◌∷◌, none, String}
use traficctl.Cli.Writes.{Output}

abbrev pub printer : Output (List String)
printer = record {
  print = λ o s. (s ∷ o, none);
  open_table = λ o. o;
  row = λ o s. (s ∷ o, none);
  flush = λ o. (o, none);
}
