-- ===== src/Echo/Counted.antt =====
-- The counters of the ping-pong session.
use learn_for_cpp.Base.{
  ℕ, ◌+◌, ◌≡◌, refl, sym, ap, ◌∙◌, some, List, [], ◌∷◌, ◌++◌, length, length-append, arith,
  append-nil, append_assoc, subst,
}
use learn_for_cpp.Buffer.{got, readable_bytes}
use learn_for_cpp.Buffer.Content.{readable-content}
use learn_for_cpp.TcpConnection.{Connection, Write}
use learn_for_cpp.TcpConnection.Input.{read_some_lem}
use learn_for_cpp.TcpConnection.Flow.{stream}
use learn_for_cpp.Echo.{Session, new_session, session_on_message, session_read_event, read_event}
use learn_for_cpp.Echo.Served.{IsEchoing, HasRoom, read_event-IsEchoing}

-- The counters after some bytes in some messages.
abbrev pub counts : ℕ → ℕ → Session
counts bytes messages = record {
  bytes_read = bytes;
  bytes_written = bytes;
  messages_read = messages;
}

-- A session, the bytes that it got, and in how many messages.
pub data Plays (c : Connection) : Session → Connection → List ℕ → ℕ → Type 0 where
  begins : Plays c new_session c [] 0
  plays :
      {s t : Session} {d e : Connection} {ms : List ℕ} {n : ℕ} (x : ℕ) (xs : List ℕ) (w : Write)
      → Plays c s d ms n
      → HasRoom d (x ∷ xs)
      → session_read_event s d (got (x ∷ xs)) w ≡ some (t, e)
      → Plays c t e (ms ++ (x ∷ xs)) (n + 1)

session_lem :
    (s : Session) (c : Connection) (x : ℕ) (xs : List ℕ) (w : Write)
    → IsEchoing c
    → HasRoom c (x ∷ xs)
    → (d : Connection) × (session_read_event s c (got (x ∷ xs)) w
        ≡ some (
          record {
            bytes_read = s.bytes_read + length (x ∷ xs);
            bytes_written = s.bytes_written + length (x ∷ xs);
            messages_read = s.messages_read + 1;
          },
          d,
        ))
      × IsEchoing d
      × (stream d ≡ stream c ++ (x ∷ xs))
unfolding session_read_event session_on_message read_event
session_lem s c x xs w e room =
    let (b, r, v, eq, _) = read_some_lem c x xs e.valid e.near room.input in
    let size : readable_bytes b ≡ length (x ∷ xs) =
      readable-content b v ∙ ap length (eq ∙ ap (λ l. l ++ (x ∷ xs)) e.nothing_kept) in
    let (d, r', e', s') = read_event-IsEchoing c x xs w e room in
    (d, ground (arith, r, r', size), e', s')

-- The session of the client echoes as the server does, and its counters are right: as many bytes read
-- as written, both the length of what it got, and one message for each read.
pub counts-Plays :
    (c d : Connection) (s : Session) (ms : List ℕ) (n : ℕ)
    → IsEchoing c
    → Plays c s d ms n
    → (s ≡ counts (length ms) n) × IsEchoing d × (stream d ≡ stream c ++ ms)
unfolding new_session
counts-Plays c d s ms n e begins = (refl, e, sym (append-nil (stream c)))
counts-Plays c d t ms n e (plays {s} {d = d1} {e = d2} {ms = ms'} {n = k} x xs w run room r) =
    let (eq, e1, s1) = counts-Plays c d1 s ms' k e run in
    let (d', r', e2, s2) = session_lem s d1 x xs w e1 room in
    let after : Session = record {
      bytes_read = s.bytes_read + length (x ∷ xs);
      bytes_written = s.bytes_written + length (x ∷ xs);
      messages_read = s.messages_read + 1;
    } in
    let st : after ≡ t = ground (arith, r, r') in
    let dd : d' ≡ d2 = ground (arith, r, r') in
    (
      sym st ∙ ground (arith, eq, length-append ms' (x ∷ xs)),
      subst IsEchoing dd e2,
      ap stream (sym dd) ∙ s2 ∙ ap (λ l. l ++ (x ∷ xs)) s1 ∙ append_assoc (stream c) ms' (x ∷ xs),
    )
