-- ===== src/Channel/Tests.antt =====
-- Runs of src/Channel.cc.
use kama_webserver.Prelude.{◌≡◌, ◌⊎◌, ◌↔◌, true, false}
use kama_webserver.Channel.{Channel, read, none_event, init, handle_event}
use kama_webserver.Channel.Dispatch.{is_ordered, runs, Calls, handle_event-is_ordered}

-- Data and the end of the stream at once, at a tied channel.
abbrev hung_up : Channel
hung_up = record (init 5) {
  tied = true;
  revents = record none_event { epollin = true; epollhup = true };
  read_callback = true;
  close_callback = true;
}

handle_event-is_ordered_example :
    (is_ordered (handle_event true hung_up) ≡ true)
    × ((runs read (handle_event true hung_up) ≡ true)
        ↔ (((hung_up.tied ≡ false) ⊎ (true ≡ true)) × Calls hung_up read))
handle_event-is_ordered_example = handle_event-is_ordered true hung_up read
