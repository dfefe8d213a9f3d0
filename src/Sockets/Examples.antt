-- ===== src/Sockets/Examples.antt =====
-- A loopback address.
use learn_for_cpp.Base.{
  ℕ, ◌+◌, ◌*◌, ◌/◌, ◌%◌, ◌≡◌, refl, true, none, some, List, [], ◌∷◌, ◌++◌, arith,
}
use learn_for_cpp.Sockets.{Library, parsed, new_address, to_string, is_self_connect, get_addr}
use learn_for_cpp.Sockets.Endpoint.{IsAddress, to_string-new_address}

-- The bytes of "127.0.0.1", and of "80".
abbrev ip : List ℕ
ip = 49 ∷ 50 ∷ 55 ∷ 46 ∷ 48 ∷ 46 ∷ 48 ∷ 46 ∷ 49 ∷ []

abbrev swap16 : ℕ → ℕ
swap16 n = n % 256 * 256 + n / 256 % 256

-- A library that knows one address and one port.
abbrev lib : Library
lib = record {
  htons = swap16;
  ntohs = swap16;
  htonl = λ n. n;
  inet_pton = λ t. parsed 16777343;
  inet_ntop = λ a. some ip;
  print_unsigned = λ n. 56 ∷ 48 ∷ [];
}

lib-IsAddress : IsAddress lib ip 80
lib-IsAddress = record {
  back = refl;
  addr = 16777343;
  reads = refl;
  prints = refl;
  short = omega arith;
  digits = omega arith;
}

-- Two failed calls look like a connection to itself.
both_fail : is_self_connect none none ≡ true
unfolding is_self_connect get_addr
both_fail = refl

to_string-new_address_example : to_string lib (new_address lib ip 80) ≡ ip ++ (58 ∷ 56 ∷ 48 ∷ [])
to_string-new_address_example = to_string-new_address lib ip 80 lib-IsAddress
