-- ===== src/Logging/Logger/Examples.antt =====
-- A line at level ERROR with an error number, and a path.
use learn_for_cpp.Base.{[], ◌∷◌, replicate}
use learn_for_cpp.Logging.Logger.{Cache, Context}

abbrev cached : Cache
cached = record { last_second = 0; time = replicate 20 b'0' }

abbrev context : Context
context = record {
  second = 7;
  time = replicate 20 b't';
  us = replicate 10 b'u';
  tid = replicate 9 b'i';
  errno = 11;
  error_text = b'e' ∷ [];
  func = b'f' ∷ [];
  file = b'a' ∷ b'/' ∷ b'b' ∷ [];
  line = 12;
}
