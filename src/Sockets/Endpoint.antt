-- ===== src/Sockets/Endpoint.antt =====
-- An address is printed as the one that it was made from.
use learn_for_cpp.Base.{
  ℕ, ◌≤◌, ◌≡◌, ap, ◌∙◌, some, List, ◌∷◌, ◌++◌, arith, length, length-append, take, take_all,
}
use learn_for_cpp.Sockets.{
  Library, InetAddress, parsed, host_to_network16, network_to_host16, from_host_to_port,
  new_address, host_of, to_host_port, to_string,
}

-- The C library on an address text and a port: `ntohs` undoes `htons`, `inet_ntop` prints the address
-- that `inet_pton` reads, an address has at most 15 bytes, and a number of 16 bits at most 5.
pub record IsAddress (lib : Library) (ip : List ℕ) (port : ℕ) : Type 0 where
  pub back : lib.ntohs (lib.htons port) ≡ port
  pub addr : ℕ
  pub reads : lib.inet_pton ip ≡ parsed addr
  pub prints : lib.inet_ntop addr ≡ some ip
  pub short : length ip ≤ 15
  pub digits : length (lib.print_unsigned port) ≤ 5

-- The address of an IP text and a port prints as the text, a colon and the port: in the 32 bytes of the
-- buffer nothing is cut off, and the port is in the right order of bytes again.
pub to_string-new_address :
    (lib : Library) (ip : List ℕ) (port : ℕ)
    → IsAddress lib ip port
    → to_string lib (new_address lib ip port) ≡ ip ++ (58 ∷ lib.print_unsigned port)
unfolding to_string to_host_port new_address from_host_to_port host_to_network16 network_to_host16
to_string-new_address lib ip port h =
    let whole = ip ++ (58 ∷ lib.print_unsigned port) in
    let size = length-append ip (58 ∷ lib.print_unsigned port) in
    let fits : length whole ≤ 31 = omega (arith, size, h.short, h.digits) in
    let same : take 31 whole ≡ whole = take_all 31 whole fits in
    let a : InetAddress = record { port = lib.htons port; addr = h.addr } in
    let made : new_address lib ip port ≡ a = ground (arith, h.reads) in
    ap (to_string lib) made
    ∙ ap (λ x. take 31 (host_of x ++ (58 ∷ lib.print_unsigned (lib.ntohs (lib.htons port)))))
        h.prints
    ∙ ap (λ p. take 31 (ip ++ (58 ∷ lib.print_unsigned p))) h.back
    ∙ same
