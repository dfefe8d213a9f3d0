-- ===== src/TcpClient/Inv.antt =====
-- What holds between the calls and events of a client.
use learn_for_cpp.Base.{
  ℕ, Bool, true, false, not, ◌&&◌, Option, none, some, List, [], ◌∷◌, ltb, ◌≡◌, ◌⊎◌, arith,
  if◌then◌else◌,
}
use learn_for_cpp.Connector
use learn_for_cpp.Connector.{
  Connector, Errno, is_connecting, is_null, new_connector, start_in_loop, start, restart,
}
use learn_for_cpp.Connector.Attempt.{HasTried}
use learn_for_cpp.TcpConnection.{Connection}
use learn_for_cpp.TcpConnection.Lifecycle.{lives}
use learn_for_cpp.TcpClient.{Client, Queued, resets, destroys, starts, shuts, is_connection}

abbrev pub is_up : Connector → Bool
is_up k = elim (k.state) [ Connector.connected ↦ true | _ ↦ false ]

-- Whether the connector is connecting or connected, and has no channel, while the client has this
-- connection and while this is queued.
abbrev pub fits_at : Option ℕ → List Queued → Bool → Bool → Bool → Bool
fits_at none [] connecting up null = if connecting then not null else null
fits_at (some n) [] connecting up null = up && null
fits_at none (resets ∷ []) connecting up null = not connecting && not null
fits_at (some n) (resets ∷ []) connecting up null = up
fits_at none (destroys n ∷ []) connecting up null = if connecting then not null else null
fits_at _ _ connecting up null = false

abbrev pub fits : Option ℕ → List Queued → Connector → Bool
fits o q k = fits_at o q (is_connecting k.state) (is_up k) (is_null k.channel)

-- The one connection that may live: the client's, or the one that is to be destroyed.
abbrev pub held : Option ℕ → List Queued → Option ℕ
held (some n) q = some n
held none (destroys n ∷ q) = some n
held none _ = none

abbrev pub is_some_live : Option Connection → Bool
is_some_live none = false
is_some_live (some conn) = lives conn

abbrev pub lives_at : Option ℕ → (ℕ → Option Connection) → Bool
lives_at none conns = true
lives_at (some n) conns = is_some_live (conns n)

abbrev pub is_below : Option ℕ → ℕ → Bool
is_below none m = true
is_below (some n) m = ltb n m

pub record Inv (c : Client) : Type 0 where
  pub fitting : fits c.connection c.queue c.connector ≡ true
  pub live : lives_at (held c.connection c.queue) c.conns ≡ true
  pub numbered : is_below (held c.connection c.queue) c.next_conn_id ≡ true
  -- No other connection is left.
  pub only : (k : ℕ) → (c.conns k ≡ none) ⊎ (is_connection (held c.connection c.queue) k ≡ true)

-- The connector may be replaced by one that fits.
pub connector-Inv :
    (c : Client) (k : Connector) (wanted : Bool)
    → fits c.connection c.queue k ≡ true
    → Inv c
    → Inv (record c { connector = k; connect = wanted })
connector-Inv c k wanted fit v = record {
  fitting = fit;
  live = v.live;
  numbered = v.numbered;
  only = v.only;
}

-- So it may after an attempt.
pub tried_fits :
    (o : Option ℕ) (q : List Queued) (k k' : Connector)
    → fits o q k ≡ true
    → k.state ≡ Connector.disconnected
    → HasTried k k'
    → fits o q k' ≡ true
tried_fits none [] k k' f down t = ground arith
tried_fits (some n) [] k k' f down t = ground arith
tried_fits none (resets ∷ []) k k' f down t = ground arith
tried_fits (some n) (resets ∷ []) k k' f down t = ground arith
tried_fits none (destroys n ∷ []) k k' f down t = ground arith
tried_fits (some n) (destroys m ∷ q) k k' f down t = ground arith
tried_fits none (resets ∷ x ∷ q) k k' f down t = ground arith
tried_fits (some n) (resets ∷ x ∷ q) k k' f down t = ground arith
tried_fits none (destroys n ∷ x ∷ q) k k' f down t = ground arith
tried_fits none (starts a b ∷ q) k k' f down t = ground arith
tried_fits (some n) (starts a b ∷ q) k k' f down t = ground arith
tried_fits none (shuts a ∷ q) k k' f down t = ground arith
tried_fits (some n) (shuts a ∷ q) k k' f down t = ground arith
