-- ===== src/Base/LineLog.antt =====
-- A file of JSON lines to which a program appends, by what its lines deserialize to, and how the
-- file system answers one append. The writer of a line sees an `io::Error`, which is the argument.
use mathlib.Core.Option.{Option, none, some}
use mathlib.Core.List.{List, [], ◌∷◌, ◌++◌}
use comptrol.Base.Fallible.{Result, ok, err}

-- `none` is a line that does not parse; the tail is a last line that lacks its end.
pub record Log (R : Type 0) : Type 0 where
  pub lines : List (Option R)
  pub tail : Option (Option R)

abbrev pub all_lines : {R : Type 0} → Log R → List (Option R)
all_lines log = elim log.tail [ none ↦ log.lines | some line ↦ log.lines ++ line ∷ [] ]

-- How the file system answers one appended line: nothing is written, a part of the line, all of it
-- but its end, or all of it.
pub data AppendOutcome : Type 0 where
  refused partial unterminated appended : AppendOutcome

-- A record behind a tail continues that line, which then does not parse.
abbrev pub joined : {R : Type 0} → Option (Option R) → R → Option R
joined none r = some r
joined (some tail) r = none

abbrev pub append_json :
    {E R : Type 0} → E → AppendOutcome → Log R → R → Result E (Unit {0}) × Log R
append_json e refused log r = (err e, log)
append_json e partial log r = (err e, record log { tail = some none })
append_json e unterminated log r = (err e, record log { tail = some (joined log.tail r) })
append_json e appended log r =
    (ok tt, record { lines = log.lines ++ joined log.tail r ∷ []; tail = none })
