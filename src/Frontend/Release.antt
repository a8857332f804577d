-- ===== src/Frontend/Release.antt =====
-- What the front end of src/mopidy_mpd/actor.py gives back to the system when it stops.
use mopidy_mpd.Prelude.{
  ℕ, Text, ◌≡◌, refl, ap, ◌∙◌, false, Option, none, some, List, ◌∷◌, text_eq_refl, ==_iff,
}
use mopidy_mpd.Outcome.{ok}
use mopidy_mpd.Server.Listen.{
  Listener, attempt, stop_server, socket_path, without_source, without_socket, without_text,
  clean_up,
}
use mopidy_mpd.Server.Sockets.{Environment, Os, shut_down, unlink_file}
use mopidy_mpd.Frontend.Holding.{Serves}

-- The system lets a server stop.
pub record Stops (env : Environment) : Type 0 where
  pub shuts : (os : Os) → env.fails shut_down os ≡ false
  pub unlinks : (path : Text) (os : Os) → env.fails (unlink_file path) os ≡ false

without_source-head : (i fd : ℕ) (rest : List (ℕ × ℕ)) → without_source i ((i, fd) ∷ rest) ≡ rest
unfolding without_source
without_source-head i fd rest = rw ((==_iff i i).1 refl) refl

without_socket-head : (fd : ℕ) (rest : List ℕ) → without_socket fd (fd ∷ rest) ≡ rest
unfolding without_socket
without_socket-head fd rest = rw ((==_iff fd fd).1 refl) refl

module _ (env : Environment) (os : Os) (server : Listener) where
  clean_up-restores :
      (path : Option Text) (os1 : Os)
      → Stops env
      → os1.files ≡ (elim path [ none ↦ os.files | some p ↦ p ∷ os.files ])
      → clean_up env path os1 ≡ (ok tt, record os1 { files = os.files })
  unfolding clean_up attempt without_text
  clean_up-restores none os1 stops h = ap (λ (l : List Text). (ok tt, record os1 { files = l })) h
  clean_up-restores (some path) os1 stops h = rw (stops.unlinks path os1, h, text_eq_refl path) refl

  -- A server that stops gives back what it holds.
  pub stop_server-restores :
      (os1 : Os)
      → Stops env
      → Serves env os server os1
      → stop_server env server os1
        ≡ (ok tt, record os1 { sockets = os.sockets; watches = os.watches; files = os.files })
  unfolding stop_server attempt
  stop_server-restores os1 stops h =
      let fd = server.server_socket.fileno in
      let watching : Os = record os1 { watches = without_source server.watcher os1.watches } in
      let closed : Os = record watching { sockets = without_socket fd os1.sockets } in
      let unwatched : without_source server.watcher os1.watches ≡ os.watches =
        ap (without_source server.watcher) h.watches_eq
        ∙ without_source-head server.watcher fd os.watches in
      let shut : without_socket fd os1.sockets ≡ os.sockets =
        ap (without_socket fd) h.sockets_eq ∙ without_socket-head fd os.sockets in
      rw (stops.shuts watching) (
        clean_up-restores (socket_path server.server_socket) closed stops h.files_eq
        ∙ ap
            (λ ((v, l) : List (ℕ × ℕ) × List ℕ).
              (ok tt, record os1 { sockets = l; watches = v; files = os.files }))
            (pair_eq unwatched shut))
    where
      pair_eq :
          {v v' : List (ℕ × ℕ)} {l l' : List ℕ}
          → v ≡ v'
          → l ≡ l'
          → ◌≡◌ {A = List (ℕ × ℕ) × List ℕ} (v, l) (v', l')
      pair_eq e e' = cc
