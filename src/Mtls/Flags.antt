-- ===== src/Mtls/Flags.antt =====
-- mtls/command.go: the flag of the command.
use mcptp.Base.{List, String, Result}
use mcptp.Flags.{Flag, Reader, plain_flag}

abbrev pub output_flag : Flag String ⊥
output_flag = plain_flag "output" "o" "" "."

-- The output directory, from the values that the command line gives.
unfoldable pub output_directory : Reader → List String → Result String String
output_directory R given = R.read String ⊥ output_flag given
