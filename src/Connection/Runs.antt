-- ===== src/Connection/Runs.antt =====
-- A `Connection` of src/mopidy_mpd/network.py from its start, through any sequence of events.
use mopidy_mpd.Prelude.{
  ℕ, ◌≡◌, refl, sym, subst, ◌==◌, Bool, true, false, Option, none, some, List, [], ◌∷◌, ◌++◌,
  append_assoc, append-nil, if_both, Bool-cases, inl, inr, ℤ, pos, lt_int,
}
use mopidy_mpd.Utf8.{Bytes}
use mopidy_mpd.Connection.{
  Watch, on_recv, on_send, on_timeout, opened, Connection, id_of, add_watch, drop_watch,
  remove_source, shut, stop, enable_timeout, enable_io, after_call, connect, Event, step,
}
use mopidy_mpd.Connection.Sources.{
  Known, KnownIn, KnownIn-of, id_of-sources, disable-Known, add_watch-Known,
}
use mopidy_mpd.Connection.Stop.{shut-sources, stop_off, stop_on}
use mopidy_mpd.Connection.Events.{IsKept, enable_io-Kept, enable_timeout-Kept, step-Kept}
use mopidy_mpd.Connection.Watches.{Watched, Watched-off, Watched-IsKept}
use mopidy_mpd.Connection.Sending.{Ordered}
use mopidy_mpd.Connection.Order.{queues, step-Ordered}

stop-Known : (c : Connection) → Known c → Known (stop c)
stop-Known c k = elim (Bool-cases c.stopping) [
  | inl e ↦ subst Known (sym (stop_on c e)) k
  | inr e ↦ subst Known (sym (stop_off c e)) (subst (KnownIn (shut c)) (sym (shut-sources c k)) tt)
]

KnownIn-fewer :
    (i : ℕ) (c : Connection) (l : List (ℕ × Watch)) → KnownIn c l → KnownIn c (remove_source i l)
unfolding remove_source
KnownIn-fewer i c [] k = tt
KnownIn-fewer i c ((j, w) ∷ l) (e, k) =
    let rest = KnownIn-fewer i c l k in if_both (KnownIn c) (j == i) rest (e, rest)

gone-Known : (i : Option ℕ) (c : Connection) → Known c → Known (after_call false i c)
unfolding after_call
gone-Known none c k = k
gone-Known (some i) c k =
    KnownIn-of c (record c { sources = remove_source i c.sources }) (remove_source i c.sources)
      (λ w. id_of-sources w (remove_source i c.sources) c) (KnownIn-fewer i c c.sources k)

pub Known-IsKept : IsKept Known
Known-IsKept = record {
  same = λ c d ids sources next stopping k.
      subst (KnownIn d) (sym sources) (KnownIn-of c d c.sources ids k);
  disabled = disable-Known;
  added = add_watch-Known;
  ended = stop-Known;
  gone = λ i c k. gone-Known i (stop c) k;
}

abbrev pub run : List Event → Connection → Connection
run [] c = c
run (e ∷ es) c = run es (step e c)

abbrev pub all_queued : List Event → Bytes
all_queued [] = []
all_queued (e ∷ es) = queues e ++ all_queued es

run-from :
    (q : Bytes) (es : List Event) (c : Connection)
    → Ordered q c
    → Ordered (q ++ all_queued es) (run es c)
run-from q [] c o = subst (λ (b : Bytes). Ordered b c) (sym (append-nil q)) o
run-from q (e ∷ es) c o =
    subst (λ (b : Bytes). Ordered b (run es (step e c))) (append_assoc q (queues e) (all_queued es))
      (run-from (q ++ queues e) es (step e c) (step-Ordered q e c o))

pub run-Kept :
    (P : Connection → Type 0) → IsKept P → (es : List Event) (c : Connection) → P c → P (run es c)
run-Kept P kept [] c h = h
run-Kept P kept (e ∷ es) c h = run-Kept P kept es (step e c) (step-Kept P kept e c h)

opened-off : (timeout : ℤ) (w : Watch) → id_of w (opened timeout) ≡ none
opened-off timeout on_recv = refl
opened-off timeout on_send = refl
opened-off timeout on_timeout = refl

connect-Kept :
    (P : Connection → Type 0) (timeout : ℤ) (added : Bool)
    → IsKept P
    → P (opened timeout)
    → P (connect timeout added)
unfolding connect
connect-Kept P timeout added kept h =
    enable_timeout-Kept P kept (enable_io on_recv none added (opened timeout))
      (enable_io-Kept P kept on_recv none added (opened timeout) refl h)

pub connect-Known : (timeout : ℤ) (added : Bool) → Known (connect timeout added)
connect-Known timeout added = connect-Kept Known timeout added Known-IsKept tt

connect-Ordered : (timeout : ℤ) (added : Bool) → Ordered [] (connect timeout added)
unfolding connect enable_io enable_timeout add_watch drop_watch stop shut
connect-Ordered timeout true =
    if_both (Ordered []) (lt_int (pos 0) timeout)
      (record {
        rest = [];
        in_order = refl;
        buffered = λ _. refl;
        shut_down = refl;
        watched = λ _ e. absurd (cc e);
      })
      (record {
        rest = [];
        in_order = refl;
        buffered = λ _. refl;
        shut_down = refl;
        watched = λ _ e. absurd (cc e);
      })
connect-Ordered timeout false =
    if_both (Ordered []) (lt_int (pos 0) timeout)
      (record {
        rest = [];
        in_order = refl;
        buffered = λ _. refl;
        shut_down = refl;
        watched = λ _ e. absurd (cc e);
      })
      (record {
        rest = [];
        in_order = refl;
        buffered = λ _. refl;
        shut_down = refl;
        watched = λ _ e. absurd (cc e);
      })

-- Behind any events since its start, what the socket of a connection took is the beginning of all
-- that was queued, in order and with nothing twice, and unless the connection is stopping the
-- rest waits in the buffer, and where there is a rest the connection has the identifier of a
-- watch for it. GLib holds only sources of which the connection has the identifier, and each
-- identifier that it has is of one watch alone, for which GLib holds the source, unless the
-- connection is stopping.
pub run-connect :
    (timeout : ℤ) (added : Bool) (es : List Event)
    → Ordered (all_queued es) (run es (connect timeout added))
      × Known (run es (connect timeout added))
      × Watched (run es (connect timeout added))
run-connect timeout added es =
    let c = connect timeout added in
    (
      run-from [] es c (connect-Ordered timeout added),
      run-Kept Known Known-IsKept es c (connect-Known timeout added),
      run-Kept Watched Watched-IsKept es c (
          connect-Kept Watched timeout added Watched-IsKept
            (Watched-off (opened timeout) (opened-off timeout))),
    )
