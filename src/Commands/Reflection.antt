-- ===== src/Commands/Reflection.antt =====
-- src/mopidy_mpd/protocol/reflection.py: which commands there are.
use mopidy_mpd.Prelude.{
  Text, codes, Bool, true, false, not, ◌&&◌, ◌||◌, List, [], ◌∷◌, ltb, ◌==◌, if◌then◌else◌, set_add,
}
use mopidy_mpd.Exceptions.{mpd_permission_error}
use mopidy_mpd.Session.{M, pure, throw, gets, ◌>>=◌}
use mopidy_mpd.Protocol.{str, Element, pair, Result, nothing, many, items, Arg, positional, Handler}

-- What a registration tells the reflection commands.
pub record Listing : Type 0 where
  pub name : Text
  pub auth_required : Bool
  pub list_command : Bool

unfoldable pub listings : {W : Type 0} → List (Handler W) → List Listing
listings [] = []
listings (h ∷ hs) =
    record { name = h.name; auth_required = h.auth_required; list_command = h.list_command }
    ∷ listings hs

-- `s < t` on texts, by code points
unfoldable pub text_lt : Text → Text → Bool
text_lt [] [] = false
text_lt [] (b ∷ t) = true
text_lt (a ∷ s) [] = false
text_lt (a ∷ s) (b ∷ t) = ltb a b || ((a == b) && text_lt s t)

unfoldable pub insert_text : Text → List Text → List Text
unfolding text_lt
insert_text t [] = t ∷ []
insert_text t (x ∷ xs) = let rest = insert_text t xs in if text_lt x t then x ∷ rest else t ∷ x ∷ xs

-- `sorted`
unfoldable pub sorted : List Text → List Text
unfolding insert_text
sorted [] = []
sorted (t ∷ ts) = insert_text t (sorted ts)

-- The loop of `commands` over the registry, with the set of names so far.
unfoldable pub permitted : Bool → List Listing → List Text → List Text
unfolding set_add
permitted authenticated [] names = names
permitted authenticated (l ∷ ls) names = permitted authenticated ls (
    if l.list_command && (authenticated || not l.auth_required)
    then set_add names l.name
    else names)

-- The loop of `notcommands`.
unfoldable pub refused : Bool → List Listing → List Text → List Text
unfolding set_add
refused authenticated [] names = names
refused authenticated (l ∷ ls) names = refused authenticated ls (
    if l.list_command && (not authenticated && l.auth_required)
    then set_add names l.name
    else names)

unfoldable pub command_pairs : List Text → List Element
command_pairs [] = []
command_pairs (t ∷ ts) = pair (codes "command") (str t) ∷ command_pairs ts

module _ {W : Type 0} where
  unfoldable pub config : List Arg → M W Result
  config arguments = throw (mpd_permission_error (codes "config"))

  unfoldable pub commands : List Listing → List Arg → M W Result
  unfolding command_pairs sorted permitted
  commands registry arguments = do
    authenticated ← gets (λ s. s.authenticated)
    pure (many (items (command_pairs (sorted (permitted authenticated registry [])))))

  unfoldable pub decoders : List Arg → M W Result
  decoders arguments = pure nothing

  unfoldable pub notcommands : List Listing → List Arg → M W Result
  unfolding command_pairs sorted refused
  notcommands registry arguments = do
    authenticated ← gets (λ s. s.authenticated)
    pure (
        many (
          items (
            command_pairs
              (sorted (refused authenticated registry (codes "config" ∷ codes "kill" ∷ []))))))

  unfoldable pub reflection_handlers : List Listing → List (Handler W)
  unfolding config commands decoders notcommands
  reflection_handlers registry =
      record {
        name = codes "config";
        spec = positional [];
        func = config;
        auth_required = true;
        list_command = false;
      }
      ∷ record {
        name = codes "commands";
        spec = positional [];
        func = commands registry;
        auth_required = false;
        list_command = true;
      }
      ∷ record {
        name = codes "decoders";
        spec = positional [];
        func = decoders;
        auth_required = true;
        list_command = true;
      }
      ∷ record {
        name = codes "notcommands";
        spec = positional [];
        func = notcommands registry;
        auth_required = false;
        list_command = true;
      }
      ∷ []
