-- ===== src/Epoller.antt =====
-- reactor/Epoller.h and Epoller.cc. A `Channel *` is an address into `objects`. Whether a call of
-- `epoll_ctl` succeeds, and what `epoll_wait` reports, are arguments; a failed assertion is `none`.
pub mod Registry
pub mod Active
mod Examples
use learn_for_cpp.Base.{
  ℕ, ◌*◌, ◌+◌, ◌≡◌, Bool, true, false, not, Option, none, some, List, [], ◌∷◌, length, leb, put,
  ◌==◌, if◌then◌else◌, ◌>>=◌, ◌>>◌, assert,
}
use learn_for_cpp.Channel.{Channel, Events, is_none, set_revents}

pub record Epoller : Type 0 where
  -- `channels_`, from descriptors to channels.
  pub channels : ℕ → Option ℕ
  pub events_size : ℕ
  pub objects : ℕ → Channel
  -- The number of lines in the log at level ERROR.
  pub errors : ℕ

abbrev pub init_event_list_size : ℕ
init_event_list_size = 16

pub new_epoller : (ℕ → Channel) → Epoller
new_epoller objects = record {
  channels = λ fd. none;
  events_size = init_event_list_size;
  objects = objects;
  errors = 0;
}

-- `channels_.find(fd) == channels_.end()`, and `channels_[fd] == channel`.
abbrev pub is_end : Option ℕ → Bool
is_end none = true
is_end (some a) = false

abbrev pub is_at : Option ℕ → ℕ → Bool
is_at none b = false
is_at (some a) b = a == b

abbrev pub set_registered : Epoller → ℕ → Bool → Epoller
set_registered p a b = record p {
  objects = put p.objects a (record (p.objects a) { registered = b });
}

abbrev pub log_error : Epoller → Epoller
log_error p = record p { errors = p.errors + 1 }

pub epoll_add : Epoller → ℕ → Bool → Option Epoller
epoll_add p a ok = if is_none (p.objects a).events then some p else (do
  assert (is_end (p.channels (p.objects a).fd))
  some (
      if ok
      then set_registered (record p { channels = put p.channels (p.objects a).fd (some a) }) a true
      else log_error p))

pub epoll_mod : Epoller → ℕ → Bool → Option Epoller
epoll_mod p a ok = do
  assert (is_at (p.channels (p.objects a).fd) a)
  some (if ok then p else log_error p)

pub epoll_del : Epoller → ℕ → Bool → Option Epoller
epoll_del p a ok = do
  assert (is_at (p.channels (p.objects a).fd) a)
  assert (is_none (p.objects a).events)
  assert ((p.objects a).registered)
  some (
      if ok
      then set_registered (record p { channels = put p.channels (p.objects a).fd none }) a false
      else log_error p)

pub update_channel_map : Epoller → ℕ → Bool → Option Epoller
update_channel_map p a ok =
    if not (p.objects a).registered then epoll_add p a ok else epoll_mod p a ok

pub remove_channel_map : Epoller → ℕ → Bool → Option Epoller
remove_channel_map p a ok = epoll_del p a ok

-- One of the events that `epoll_wait` reports.
pub record Ready : Type 0 where
  pub fd : ℕ
  pub events : Events

-- The loop of `fillActiveChannels`: the channels to handle, in order.
unfoldable pub fill_each : Epoller → List Ready → Option (List ℕ × Epoller)
fill_each p [] = some ([], p)
fill_each p (r ∷ rs) = do
  a ← p.channels r.fd
  (active, p') ←
      fill_each (record p { objects = put p.objects a (set_revents (p.objects a) r.events) }) rs
  some (a ∷ active, p')

unfoldable pub fill_active_channels : Epoller → List Ready → Option (List ℕ × Epoller)
fill_active_channels p rs = do assert (leb (length rs) p.events_size); fill_each p rs

-- What `epoll_wait` returned: some events, perhaps none, or an error.
pub data Wait : Type 0 where
  ready : List Ready → Wait
  wait_error : Wait

-- `Epoller::epoll`: the list of events grows when it was full.
unfoldable pub epoll : Epoller → Wait → Option (List ℕ × Epoller)
epoll p (ready rs) = if length rs == 0 then some ([], p) else (do
  (active, p') ← fill_active_channels p rs
  some (
    active,
    if length rs == p.events_size then record p' { events_size = p'.events_size * 2 } else p',
  ))
epoll p wait_error = some ([], log_error p)
