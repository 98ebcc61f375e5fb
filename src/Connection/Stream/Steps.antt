-- ===== src/Connection/Stream/Steps.antt =====
-- src/TcpConnection.cc: what each step of a connection but handleWrite keeps.
use mathlib.Core.List.{append-nil}
use mathlib.Core.Path.{subst₂}
use kama_webserver.Prelude.{
  ℕ, ◌+◌, ◌≤◌, ◌≡◌, refl, sym, ap, ◌∙◌, Bool-cases, inl, inr, true, false, List, [], ◌++◌, length,
  arith,
}
use kama_webserver.Buffer.{Written}
use kama_webserver.Buffer.Bounds.{max_size}
use kama_webserver.Channel.{is_writing}
use kama_webserver.Connection.{
  TcpConnection, StateE, is_connected, is_disconnected, is_disconnecting, connecting,
  connect_established, connect_destroyed, handle_close, handle_error, shutdown, shutdown_in_loop,
}
use kama_webserver.Connection.Output.{send, send_in_loop}
use kama_webserver.Connection.Output.Sending.{IsHonest, kept_bytes, send_in_loop_lem}
use kama_webserver.Connection.Output.Room.{
  send-open, send-shut, send_in_loop-state, send_in_loop-shut,
}
use kama_webserver.Connection.Output.Draining.{IsClosing, is_open, disconnecting-refused}
use kama_webserver.Connection.Stream.System.{accepted_bytes, IsSound}

connected-open : (s : StateE) → is_connected s ≡ true → is_open s ≡ true
unfolding is_connected is_disconnected is_disconnecting
connected-open s h = ground (arith, h)

connected-up : (s : StateE) → is_connected s ≡ true → is_disconnected s ≡ false
unfolding is_connected is_disconnected
connected-up s h = ground (arith, h)

connecting-open : is_open connecting ≡ true
unfolding is_disconnected is_disconnecting
connecting-open = refl

module _ (write : List ℕ → Written) (bytes : List ℕ) (c : TcpConnection) where
  accepted-open :
      is_connected c.state ≡ true → accepted_bytes write bytes c ≡ kept_bytes write bytes c
  unfolding accepted_bytes
  accepted-open up = ground (arith, up)

  accepted-shut : is_connected c.state ≡ false → accepted_bytes write bytes c ≡ []
  unfolding accepted_bytes
  accepted-shut down = ground (arith, down)

module _ (c : TcpConnection) (accepted : List ℕ) (sound : IsSound c accepted) where
  pub establishes-IsSound : c.state ≡ connecting → IsSound (connect_established c) (accepted ++ [])
  unfolding connect_established is_disconnected is_disconnecting is_connected
  establishes-IsSound first =
      let ready = sound.ready (ap is_disconnected first) in
      record {
        all_bytes = sound.all_bytes ∙ sym (append-nil accepted);
        valid = sound.valid;
        ready = λ h. record { valid = sound.valid; waits = ready.waits };
        quiet = λ h. absurd (ground (arith, h));
        closing = record {
          shuts = λ a b. absurd (ground (arith, a));
          last = sound.closing.last;
          refused = λ a. absurd (ground (arith, sound.closing.refused a, first, connecting-open));
        };
      }

  pub closes-IsSound : IsSound (handle_close c) (accepted ++ [])
  unfolding handle_close is_disconnected is_disconnecting is_connected
  closes-IsSound = record {
    all_bytes = sound.all_bytes ∙ sym (append-nil accepted);
    valid = sound.valid;
    ready = λ h. absurd (ground (arith, h));
    quiet = λ h. refl;
    closing = record {
      shuts = λ a b. absurd (ground (arith, a));
      last = λ a. refl;
      refused = λ a. refl;
    };
  }

  pub fails-IsSound : IsSound (handle_error c) (accepted ++ [])
  unfolding handle_error handle_close is_disconnected is_disconnecting is_connected
  fails-IsSound = record {
    all_bytes = sound.all_bytes ∙ sym (append-nil accepted);
    valid = sound.valid;
    ready = λ h. absurd (ground (arith, h));
    quiet = λ h. refl;
    closing = record {
      shuts = λ a b. absurd (ground (arith, a));
      last = λ a. refl;
      refused = λ a. refl;
    };
  }

  shuts-same :
      ((shutdown c).wire ≡ c.wire)
      × ((shutdown c).output_buffer ≡ c.output_buffer)
      × ((shutdown c).events ≡ c.events)
      × (is_disconnected (shutdown c).state ≡ is_disconnected c.state)
  unfolding shutdown shutdown_in_loop is_disconnected is_connected
  shuts-same = ground arith

  shuts-IsClosing : IsClosing (shutdown c)
  unfolding shutdown shutdown_in_loop is_disconnecting is_connected
  shuts-IsClosing = record {
    shuts = λ a b. ground (arith, a, b, sound.closing.shuts);
    last = λ a. ground (arith, a, sound.closing.last);
    refused = λ a. ground (arith, a, sound.closing.refused);
  }

  pub shuts-IsSound : IsSound (shutdown c) (accepted ++ [])
  shuts-IsSound =
      let (w, b, e, s) = shuts-same in
      record {
        all_bytes = rw (w, b, append-nil accepted) sound.all_bytes;
        valid = rw b sound.valid;
        ready = λ h. record {
          valid = rw b sound.valid;
          waits = rw (b, e) (sound.ready (sym s ∙ h)).waits;
        };
        quiet = λ h. rw e (sound.quiet (sym s ∙ h));
        closing = shuts-IsClosing;
      }

  destroys-same :
      ((connect_destroyed c).wire ≡ c.wire)
      × ((connect_destroyed c).output_buffer ≡ c.output_buffer)
  unfolding connect_destroyed
  destroys-same = ground arith

  destroys-kept :
      is_disconnected (connect_destroyed c).state ≡ false
      → ((connect_destroyed c).events ≡ c.events) × (is_disconnected c.state ≡ false)
  unfolding connect_destroyed is_disconnected is_connected
  destroys-kept h = ground (arith, h)

  destroys-IsClosing : IsClosing (connect_destroyed c)
  unfolding connect_destroyed is_disconnected is_connected is_disconnecting
  destroys-IsClosing = record {
    shuts = λ a b. ground (arith, a, b, sound.closing.shuts);
    last = λ a. ground (arith, a, sound.closing.last);
    refused = λ a. ground (arith, a, sound.closing.refused, connected-open c.state);
  }

  destroys-quiet :
      is_disconnected (connect_destroyed c).state ≡ true
      → is_writing (connect_destroyed c).events ≡ false
  unfolding connect_destroyed
  destroys-quiet h = ground (arith, h, sound.quiet)

  pub destroys-IsSound : IsSound (connect_destroyed c) (accepted ++ [])
  destroys-IsSound =
      let (w, b) = destroys-same in
      record {
        all_bytes = rw (w, b, append-nil accepted) sound.all_bytes;
        valid = rw b sound.valid;
        ready = λ h.
            let (e, up) = destroys-kept h in
            record { valid = rw b sound.valid; waits = rw (b, e) (sound.ready up).waits };
        quiet = destroys-quiet;
        closing = destroys-IsClosing;
      }

  module _ (write : List ℕ → Written) (bytes : List ℕ) (honest : IsHonest write)
      (fits : c.output_buffer.writer_index + length bytes ≤ max_size) where
    not_half_closed :
        is_connected c.state ≡ true → is_disconnecting (send_in_loop write bytes c).state ≡ true → ⊥
    not_half_closed up a = ground (
      arith,
      a,
      up,
      send_in_loop-state write bytes c,
      connected-open c.state,
      disconnecting-refused c.state,
    )

    not_shut : is_connected c.state ≡ true → (send_in_loop write bytes c).write_shut ≡ true → ⊥
    not_shut up a = ground (
      arith,
      a,
      up,
      send_in_loop-shut write bytes c,
      connected-open c.state,
      sound.closing.refused,
    )

    sends-open :
        is_connected c.state ≡ true
        → IsSound (send_in_loop write bytes c) (accepted ++ kept_bytes write bytes c)
    sends-open up =
        let ready = sound.ready (connected-up c.state up) in
        let (s, r) = send_in_loop_lem write bytes c ready honest fits in
        record {
          all_bytes = s ∙ ap (λ q. q ++ kept_bytes write bytes c) sound.all_bytes;
          valid = r.valid;
          ready = λ h. r;
          quiet = λ h.
              absurd (ground (arith, h, connected-up c.state up, send_in_loop-state write bytes c));
          closing = record {
            shuts = λ a b. absurd (not_half_closed up a);
            last = λ a. absurd (not_shut up a);
            refused = λ a. absurd (not_shut up a);
          };
        }

    pub sends-IsSound : IsSound (send write bytes c) (accepted ++ accepted_bytes write bytes c)
    sends-IsSound = elim (Bool-cases (is_connected c.state)) [
      | inl up ↦
          subst₂ IsSound (sym (send-open write bytes c up))
            (ap (◌++◌ accepted) (sym (accepted-open write bytes c up))) (sends-open up)
      | inr down ↦
          subst₂ IsSound (sym (send-shut write bytes c down))
            (sym (append-nil accepted)
              ∙ ap (◌++◌ accepted) (sym (accepted-shut write bytes c down)))
            sound
    ]
