-- ===== src/TcpConnection/Drain.antt =====
-- What waits in the output buffer leaves it: `handleWrite` again and again, until nothing waits.
use learn_for_cpp.Base.{
  ℕ, zero, suc, ◌-◌, ◌≤◌, ◌≡◌, subst, refl, sym, ap, ◌∙◌, Bool, true, false, Option, some, List, [],
  ◌∷◌, ◌++◌, length, arith, inl, inr, Bool-cases, append-nil, length-drop, ◌>>=◌,
}
use learn_for_cpp.Buffer.Parts.{content}
use learn_for_cpp.Channel.{is_writing}
use learn_for_cpp.TcpConnection.{
  Connection, disconnecting, Write, wrote, would_block, write_error, handle_write,
}
use learn_for_cpp.TcpConnection.Flow.{stream, sent_bytes, shut_count}
use learn_for_cpp.TcpConnection.Output.{Took, taken, handle_write_lem}
use learn_for_cpp.TcpConnection.Session.{Inv, handle_write-Inv}

-- `handleWrite`, each time the socket is writable, with what `::write` returns.
abbrev pub write_each : List Write → Connection → Option Connection
write_each [] c = some c
write_each (w ∷ ws) c = do c' ← handle_write c w; write_each ws c'

-- Calls of `::write` that take `len` bytes in all; some may fail or take none in between.
abbrev pub Drains : ℕ → List Write → Type 0
Drains zero ws = Unit {0}
Drains (suc len) [] = Path Bool true false
Drains (suc len) (wrote n ∷ ws) = (n ≤ suc len) × Drains (suc len - n) ws
Drains (suc len) (would_block ∷ ws) = Drains (suc len) ws
Drains (suc len) (write_error ∷ ws) = Drains (suc len) ws

-- Nothing waits, and all bytes of the stream are sent.
pub record IsDrained (c c' : Connection) : Type 0 where
  pub holds : Inv c'
  pub empty : content c'.output_buffer ≡ []
  pub idle : is_writing c'.channel ≡ false
  pub all_sent : sent_bytes c'.effects ≡ stream c
  pub same_state : c'.state ≡ c.state
  pub shut : c.state ≡ disconnecting → shut_count c'.effects ≡ 1

-- With nothing to write, `handleWrite` changes nothing.
idle_each :
    (ws : List Write) (c : Connection) → is_writing c.channel ≡ false → write_each ws c ≡ some c
idle_each [] c off = refl
idle_each (w ∷ ws) c off =
    let e : handle_write c w ≡ some c = unfold handle_write in ground arith in
    ground (arith, e, idle_each ws c off)

empty-IsDrained : (c : Connection) → Inv c → content c.output_buffer ≡ [] → IsDrained c c
empty-IsDrained c v empty =
    let off : is_writing c.channel ≡ false = elim (Bool-cases (is_writing c.channel)) [
      | inl on ↦ absurd (omega (arith, v.flowing.waiting on, ap length empty))
      | inr off ↦ off
    ] in
    record {
      holds = v;
      empty = empty;
      idle = off;
      all_sent =
          sym (ap (λ x. sent_bytes c.effects ++ x) empty ∙ append-nil (sent_bytes c.effects));
      same_state = refl;
      shut = λ down. ground (arith, v.up, off, down);
    }

no_less : (len : ℕ) → suc len ≡ suc len - 0
no_less len = omega arith

still_due :
    (len : ℕ) (w : Write) (ws : List Write)
    → Drains (suc len) (w ∷ ws)
    → Drains (suc len - taken w) ws
still_due len (wrote n) ws d = d.1
still_due len would_block ws d = subst (λ n. Drains n ws) (no_less len) d
still_due len write_error ws d = subst (λ n. Drains n ws) (no_less len) d

within :
    (c : Connection) (len : ℕ) (w : Write) (ws : List Write)
    → length (content c.output_buffer) ≡ suc len
    → Drains (suc len) (w ∷ ws)
    → Took c w
within c len (wrote n) ws e d = omega (arith, e, d.0)
within c len would_block ws e d = tt
within c len write_error ws e d = tt

drained :
    (ws : List Write) (c : Connection) (len : ℕ)
    → Inv c
    → length (content c.output_buffer) ≡ len
    → Drains len ws
    → (c' : Connection) × (write_each ws c ≡ some c') × IsDrained c c'
drained ws c zero v e d =
    let done = empty-IsDrained c v (ground (arith, e)) in (c, idle_each ws c done.idle, done)
drained [] c (suc len) v e d = ground (arith, d)
drained (w ∷ ws) c (suc len) v e d =
    let t = within c len w ws e d in
    let (c1, r, flowing, same_stream, rest, same_state, due) = handle_write_lem c w v.flowing t in
    let v1 = (handle_write-Inv c c1 w v t r).0 in
    let size : length (content c1.output_buffer) ≡ suc len - taken w =
      ap length rest ∙ length-drop (taken w) (content c.output_buffer) ∙ ap (λ n. n - taken w) e in
    let (c2, r2, g) = drained ws c1 (suc len - taken w) v1 size (still_due len w ws d) in
    (
      c2,
      ground (arith, r, r2),
      record {
        holds = g.holds;
        empty = g.empty;
        idle = g.idle;
        all_sent = g.all_sent ∙ same_stream;
        same_state = g.same_state ∙ same_state;
        shut = λ down. g.shut (same_state ∙ down);
      },
    )

-- The waiting bytes all leave: where the calls of `::write` take them in any pieces, failing or
-- blocking any number of times in between, `handleWrite` never fails an assertion and comes to a
-- connection with an empty output buffer that no longer asks for writing and has sent its whole stream
-- in order; one that was shut down has by then shut its write half down, once.
pub write_each-IsDrained :
    (c : Connection) (ws : List Write)
    → Inv c
    → Drains (length (content c.output_buffer)) ws
    → (c' : Connection) × (write_each ws c ≡ some c') × IsDrained c c'
write_each-IsDrained c ws v d = drained ws c (length (content c.output_buffer)) v refl d
