-- ===== src/Host.antt =====
-- What the program takes from Python's runtime: tests on text that the libraries of the model do not
-- have, the keyed digest of gridraft/security.py (HMAC-SHA256), and the length of a text.
use Prim.Native.String.{count as count_chars}
use slipvolt.Base.{ℕ, String, Bool}

-- len(s): the characters of a text
abbrev pub len : String → ℕ
len s = count_chars s

pub record Host : Type 0 where
  -- str.isprintable
  pub is_printable : String → Bool
  -- s.strip() is empty
  pub is_blank : String → Bool
  -- digest(value, pepper), under the server's pepper
  pub digest : String → String
  -- str(n)
  pub decimal : ℕ → String
