-- ===== src/Server/Limit.antt =====
-- `maximum_connections_exceeded` in `Server` of src/mopidy_mpd/network.py.
use mopidy_mpd.Prelude.{
  ℕ, ◌≤◌, ◌<◌, ◌≡◌, refl, sym, ap, ◌∙◌, Bool, false, some, [], ◌∷◌, ◌++◌, length, length-append,
  leb, Bool-cases, inl, inr, arith,
}
use mopidy_mpd.Connection.{connect}
use mopidy_mpd.Server.{
  Server, Accept, client, retry, accept_error, maximum_connections_exceeded, reject_connection,
  init_connection, handle_connection,
}

-- How the sessions of a server may go on: as they are, or with one more, below the limit.
pub data LetsIn (limit : ℕ) (s s' : Server) : Type 0 where
  unchanged : s'.sessions ≡ s.sessions → LetsIn limit s s'
  one_more :
      (added : Bool)
      → s'.sessions ≡ s.sessions ++ connect s.timeout added ∷ []
      → length s.sessions < limit
      → LetsIn limit s s'

exceeded_lem :
    (limit : ℕ) (s : Server)
    → s.max_connections ≡ some limit
    → maximum_connections_exceeded s ≡ leb limit (length s.sessions)
unfolding maximum_connections_exceeded
exceeded_lem limit s h = rw (h, maximum_connections_exceeded)

not_exceeded :
    (limit : ℕ) (s : Server)
    → s.max_connections ≡ some limit
    → maximum_connections_exceeded s ≡ false
    → length s.sessions < limit
not_exceeded limit s h e =
    let e' : leb limit (length s.sessions) ≡ false = sym (exceeded_lem limit s h) ∙ e in
    ground (arith, e')

-- Whatever `accept` answers, the sessions of a server with a limit stay as they are, or one comes
-- in at the end, which only happens below the limit.
pub handle_connection-LetsIn :
    (limit : ℕ) (a : Accept) (s : Server)
    → s.max_connections ≡ some limit
    → LetsIn limit s (handle_connection a s).1
unfolding handle_connection reject_connection init_connection
handle_connection-LetsIn limit retry s h = unchanged refl
handle_connection-LetsIn limit accept_error s h = unchanged refl
handle_connection-LetsIn limit (client address added) s h =
    elim (Bool-cases (maximum_connections_exceeded s)) [
      | inl e ↦ rw e (unchanged refl)
      | inr e ↦ rw e (one_more added refl (not_exceeded limit s h e))
    ]

-- A server never has more sessions than its limit, whatever `accept` answers, if it has no more
-- before.
pub handle_connection-bounded :
    (limit : ℕ) (a : Accept) (s : Server)
    → s.max_connections ≡ some limit
    → length s.sessions ≤ limit
    → length (handle_connection a s).1.sessions ≤ limit
handle_connection-bounded limit a s h fits = elim (handle_connection-LetsIn limit a s h) [
  | unchanged e ↦ omega (arith, ap length e, fits)
  | one_more added e below ↦
      omega (arith, ap length e, length-append s.sessions (connect s.timeout added ∷ []), below)
]
