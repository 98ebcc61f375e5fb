-- ===== src/Poll/Protocol.antt =====
-- src/EPollPoller.cc: the calls of `epoll_ctl` follow its protocol, and `index_` says what epoll
-- and the map know of a channel.
use kama_webserver.Prelude.{
  ℕ, ◌≡◌, refl, sym, ◌∙◌, Bool, true, false, ◌&&◌, Option, none, some, List, [], ◌∷◌, ◌==◌, arith,
  if◌then◌else◌,
}
use kama_webserver.Channel
use kama_webserver.Channel.{Events, Index, new, added, deleted}
use kama_webserver.Poll.{
  Ctl, Operation, ctl_add, ctl_mod, ctl_del, Poller, Call, find, erase, set_channel, update,
  set_index, update_channel, remove_channel, set_events, apply, run, init, enable_et,
  enable_reading, disable_reading, enable_writing, disable_writing, disable_all, remove,
}

-- The kernel's interest list after the calls: the address that came with a descriptor.
pub registered : List Ctl → ℕ → Option ℕ
registered [] fd = none
registered (c ∷ cs) fd =
    let before = registered cs fd in
    if c.fd == fd
    then elim c.operation [ ctl_add ↦ some c.ptr | ctl_mod ↦ some c.ptr | ctl_del ↦ none ]
    else before

-- `EPOLL_CTL_ADD` wants a descriptor that is not registered, the others one that is.
pub allowed : Operation → Option ℕ → Bool
allowed ctl_add none = true
allowed ctl_add (some a) = false
allowed ctl_mod none = false
allowed ctl_mod (some a) = true
allowed ctl_del none = false
allowed ctl_del (some a) = true

pub is_legal : List Ctl → Bool
unfolding allowed registered
is_legal [] = true
is_legal (c ∷ cs) = allowed c.operation (registered cs c.fd) && is_legal cs

pub registered_for : Index → ℕ → Option ℕ
registered_for new a = none
registered_for added a = some a
registered_for deleted a = none

pub mapped_for : Index → ℕ → Option ℕ
mapped_for new a = none
mapped_for added a = some a
mapped_for deleted a = some a

-- Different channels have different descriptors.
abbrev pub AreDistinct : Poller → Type 0
AreDistinct p = (a b : ℕ) → (p.store a).fd ≡ (p.store b).fd → a ≡ b

pub record IsTracked (p : Poller) : Type 0 where
  pub legal : is_legal p.calls ≡ true
  pub in_epoll : (a : ℕ) → registered p.calls (p.store a).fd ≡ registered_for (p.store a).index a
  pub in_map : (a : ℕ) → find p.channels (p.store a).fd ≡ mapped_for (p.store a).index a

find-erase :
    (xs : List (ℕ × ℕ)) (k fd : ℕ) → find (erase xs k) fd ≡ (if k == fd then none else find xs fd)
unfolding find erase
find-erase [] k fd = ground arith
find-erase ((j, a) ∷ xs) k fd = ground (arith, find-erase xs k fd)

module _ (p : Poller) (d : AreDistinct p) (t : IsTracked p) (a : ℕ) where
  set_events-IsTracked : (change : Events → Events) → IsTracked (set_events a change p)
  unfolding set_events set_channel
  set_events-IsTracked change = record {
    legal = t.legal;
    in_epoll = λ b. ground (arith, t.in_epoll b, t.in_epoll a);
    in_map = λ b. ground (arith, t.in_map b, t.in_map a);
  }

  remove_channel-IsTracked : IsTracked (remove_channel a p)
  unfolding remove_channel update set_index set_channel is_legal allowed registered registered_for
      mapped_for
  remove_channel-IsTracked = record {
    legal = ground (arith, t.legal, t.in_epoll a);
    in_epoll = λ b. ground (arith, t.in_epoll b, t.in_epoll a, d a b, d b a);
    in_map = λ b. ground (
      arith,
      t.in_map b,
      t.in_map a,
      d a b,
      d b a,
      find-erase p.channels (p.store a).fd (p.store b).fd,
    );
  }

  update_channel-IsTracked : IsTracked (update_channel a p)
  unfolding update_channel update set_index set_channel is_legal allowed registered registered_for
      mapped_for find
  update_channel-IsTracked = record {
    legal = ground (arith, t.legal, t.in_epoll a);
    in_epoll = λ b. ground (arith, t.in_epoll b, t.in_epoll a, d a b, d b a);
    in_map = λ b. ground (
      arith,
      t.in_map b,
      t.in_map a,
      d a b,
      d b a,
      find-erase p.channels (p.store a).fd (p.store b).fd,
    );
  }

module _ (p : Poller) (d : AreDistinct p) (a b : ℕ) where
  fd-apply : (call : Call) → ((apply call a p).store b).fd ≡ (p.store b).fd
  unfolding apply set_events update_channel remove_channel update set_index set_channel
  fd-apply call = elim call [
    | enable_et ↦ ground arith
    | enable_reading ↦ ground arith
    | disable_reading ↦ ground arith
    | enable_writing ↦ ground arith
    | disable_writing ↦ ground arith
    | disable_all ↦ ground arith
    | remove ↦ ground arith
  ]

AreDistinct-apply :
    (p : Poller) (a : ℕ) (call : Call) → AreDistinct p → AreDistinct (apply call a p)
AreDistinct-apply p a call d b c eq =
    d b c (sym (fd-apply p d a b call) ∙ eq ∙ fd-apply p d a c call)

AreDistinct-set_events :
    (p : Poller) (a : ℕ) (change : Events → Events)
    → AreDistinct p
    → AreDistinct (set_events a change p)
unfolding set_events set_channel
AreDistinct-set_events p a change d b c eq = d b c (ground (arith, eq))

changed-IsTracked :
    (p : Poller) (a : ℕ) (change : Events → Events)
    → AreDistinct p
    → IsTracked p
    → IsTracked (update_channel a (set_events a change p))
changed-IsTracked p a change d t =
    update_channel-IsTracked (set_events a change p) (AreDistinct-set_events p a change d)
      (set_events-IsTracked p d t a change) a

apply-IsTracked :
    (p : Poller) (a : ℕ) (call : Call) → AreDistinct p → IsTracked p → IsTracked (apply call a p)
unfolding apply
apply-IsTracked p a enable_et d t = set_events-IsTracked p d t a Channel.enable_et
apply-IsTracked p a enable_reading d t = changed-IsTracked p a Channel.enable_reading d t
apply-IsTracked p a disable_reading d t = changed-IsTracked p a Channel.disable_reading d t
apply-IsTracked p a enable_writing d t = changed-IsTracked p a Channel.enable_writing d t
apply-IsTracked p a disable_writing d t = changed-IsTracked p a Channel.disable_writing d t
apply-IsTracked p a disable_all d t = changed-IsTracked p a (λ e. Channel.none_event) d t
apply-IsTracked p a remove d t = remove_channel-IsTracked p d t a

run-IsTracked :
    (calls : List (Call × ℕ)) (p : Poller) → AreDistinct p → IsTracked p → IsTracked (run calls p)
unfolding run
run-IsTracked [] p d t = t
run-IsTracked ((call, a) ∷ calls) p d t =
    run-IsTracked calls (apply call a p) (AreDistinct-apply p a call d)
      (apply-IsTracked p a call d t)

-- If all channels have different descriptors, then after any calls of their methods, from a fresh
-- poller: each call of epoll_ctl was allowed by what was registered before it; a channel's
-- descriptor is registered, with its address, exactly if its index is kAdded; and the map has the
-- channel exactly if its index is not kNew.
pub run-init-IsTracked :
    (fd : ℕ → ℕ) (calls : List (Call × ℕ))
    → ((a b : ℕ) → fd a ≡ fd b → a ≡ b)
    → IsTracked (run calls (init fd))
unfolding init is_legal registered find registered_for mapped_for
run-init-IsTracked fd calls distinct =
    run-IsTracked calls (init fd) distinct
      (record { legal = refl; in_epoll = λ a. refl; in_map = λ a. refl })
