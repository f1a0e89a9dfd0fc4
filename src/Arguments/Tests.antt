-- ===== src/Arguments/Tests.antt =====
-- `run a.stacky -- x --`
use stacky.Common.{List, [], ◌∷◌, codes}
use stacky.Syntax.{Text}
use stacky.Arguments.{Joins, split_arguments, split_arguments-Joins}

abbrev arguments : List Text
arguments = codes "run" ∷ codes "a.stacky" ∷ codes "--" ∷ codes "x" ∷ codes "--" ∷ []

split_arguments-Joins_example : Joins (split_arguments arguments) arguments
split_arguments-Joins_example = split_arguments-Joins arguments
