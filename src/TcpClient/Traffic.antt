-- ===== src/TcpClient/Traffic.antt =====
-- What the connection of a client sends, writes and reads.
use learn_for_cpp.Base.{
  ℕ, true, none, some, List, [], ◌≡◌, inl, inr, subst, arith, Bool-cases, Option-cases, put,
}
use learn_for_cpp.Buffer.{Readv, got}
use learn_for_cpp.Connector.{Errno}
use learn_for_cpp.TcpConnection.{Connection, Write, send, handle_write, handle_read}
use learn_for_cpp.TcpConnection.Lifecycle.{lives}
use learn_for_cpp.TcpConnection.Lives.{send-lives, handle_write-lives, handle_read-lives}
use learn_for_cpp.TcpClient.{Client, send_to, write_event, read_event, is_end, remove_connection}
use learn_for_cpp.TcpClient.Inv.{Inv, held}
use learn_for_cpp.TcpClient.Steps.{put-Inv}
use learn_for_cpp.TcpClient.Ends.{remove-Inv}

held_lives :
    (c : Client) (n : ℕ) (conn : Connection)
    → held c.connection c.queue ≡ some n
    → c.conns n ≡ some conn
    → Inv c
    → lives conn ≡ true
held_lives c n conn h at v = ground (arith, v.live, h, at)

pub send-Inv :
    (c c' : Client) (n : ℕ) (message : List ℕ) (w : Write)
    → held c.connection c.queue ≡ some n
    → send_to c n message w ≡ some c'
    → Inv c
    → Inv c'
unfolding send_to
send-Inv c c' n message w h r v = elim (Option-cases (c.conns n)) [
  | inl gone ↦ ground (arith, r, gone)
  | inr (conn, at) ↦ elim (Option-cases (send conn true message w)) [
    | inl stuck ↦ ground (arith, r, at, stuck)
    | inr (conn', sent) ↦
        let live = send-lives conn conn' message w (held_lives c n conn h at v) sent in
        let same : record c { conns = put c.conns n (some conn') } ≡ c' =
          ground (arith, r, at, sent) in
        subst Inv same (put-Inv c n conn' h live v)
  ]
]

pub write_event-Inv :
    (c c' : Client) (n : ℕ) (w : Write)
    → held c.connection c.queue ≡ some n
    → write_event c n w ≡ some c'
    → Inv c
    → Inv c'
unfolding write_event
write_event-Inv c c' n w h r v = elim (Option-cases (c.conns n)) [
  | inl gone ↦ ground (arith, r, gone)
  | inr (conn, at) ↦ elim (Option-cases (handle_write conn w)) [
    | inl stuck ↦ ground (arith, r, at, stuck)
    | inr (conn', written) ↦
        let live = handle_write-lives conn conn' w (held_lives c n conn h at v) written in
        let same : record c { conns = put c.conns n (some conn') } ≡ c' =
          ground (arith, r, at, written) in
        subst Inv same (put-Inv c n conn' h live v)
  ]
]

pub read_event-Inv :
    (c c' : Client) (n fd : ℕ) (rd : Readv) (errno : Errno)
    → c.queue ≡ []
    → c.connection ≡ some n
    → read_event c n rd fd errno ≡ some c'
    → Inv c
    → Inv c'
unfolding read_event
read_event-Inv c c' n fd rd errno q e r v = elim (Option-cases (c.conns n)) [
  | inl gone ↦ ground (arith, r, gone)
  | inr (conn, at) ↦ elim (Option-cases (handle_read conn rd)) [
    | inl stuck ↦ ground (arith, r, at, stuck)
    | inr (conn', got_some) ↦
        let h : held c.connection c.queue ≡ some n = ground (arith, e) in
        let live = handle_read-lives conn conn' rd (held_lives c n conn h at v) got_some in
        elim (Bool-cases (is_end rd)) [
          | inl ended ↦
              let (d, removed, _, _, _, v') = remove-Inv c n conn' fd errno q e live v in
              let same : d ≡ c' = ground (arith, r, at, got_some, ended, removed) in
              subst Inv same v'
          | inr more ↦
              let same : record c { conns = put c.conns n (some conn') } ≡ c' =
                ground (arith, r, at, got_some, more) in
              subst Inv same (put-Inv c n conn' h live v)
        ]
  ]
]

-- A client without a connection fails the assertion of `removeConnection` where a read finds the end.
pub read_event-none :
    (c : Client) (n fd : ℕ) (errno : Errno)
    → c.connection ≡ none
    → read_event c n (got []) fd errno ≡ none
unfolding read_event remove_connection
read_event-none c n fd errno e = elim (Option-cases (c.conns n)) [
  | inl gone ↦ ground (arith, gone)
  | inr (conn, at) ↦ elim (Option-cases (handle_read conn (got []))) [
    | inl stuck ↦ ground (arith, at, stuck)
    | inr (conn', closed) ↦ ground (arith, at, closed, e)
  ]
]
