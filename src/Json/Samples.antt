-- ===== src/Json/Samples.antt =====
-- Python with the ASCII characters, for the tests.
use tessaridb_sdk_python.Prelude.{ℕ, ◌-◌, pos, some, ◌==◌, if◌then◌else◌}
use tessaridb_sdk_python.Result.{err, value_error}
use tessaridb_sdk_python.Text.{is_digit}
use tessaridb_sdk_python.Json.Node.{Character, space, other_character, decimal_digit, Python}

abbrev pub ascii_character : ℕ → Character
ascii_character c =
    if is_digit c then decimal_digit (c - 48) else if c == 32 then space else other_character

-- Python with ASCII characters, and no floats.
abbrev pub ascii_python : Python
ascii_python = record {
  character = ascii_character;
  float_of_int = λ n. err value_error;
  int_of_float = λ bits. err value_error;
  float_of_text = λ s. err value_error;
  instant = λ s. some (pos 0);
}
