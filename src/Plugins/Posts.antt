-- ===== src/Plugins/Posts.antt =====
-- What bearychat and mqtt send of an event (wetland/output_plugin).
use wetland.Prelude.{
  Bytes, codes, Bool, true, false, List, [], ◌∷◌, ◌++◌, map, append-nil, append_assoc, ◌≡◌, refl,
  sym, ap, Bool-cases, inl, inr, ◌⊎◌, if◌then◌else◌,
}
use wetland.Prelude.Py.{Outcome, returned, raised, PyError, continue}
use wetland.Event.{Event}
use wetland.Plugins.{bearychat_reports}
use wetland.Plugins.Messages.{Origin, Body, body, Post, post_each, bearychat_send}

abbrev unless_raised : Outcome (Unit {0}) → List Bytes → List Bytes
unless_raised (returned u) rest = rest
unless_raised (raised e) rest = []

abbrev and_then : Outcome (Unit {0}) → Outcome (Unit {0}) → Outcome (Unit {0})
and_then (returned u) r = r
and_then (raised e) r = raised e

-- The urls of a list up to the first that raises.
unfoldable pub reached : (Bytes → Outcome (Unit {0})) → List Bytes → List Bytes
reached answer [] = []
reached answer (url ∷ rest) = url ∷ unless_raised (answer url) (reached answer rest)

-- The first exception of the calls to them.
unfoldable pub first_error : (Bytes → Outcome (Unit {0})) → List Bytes → Outcome (Unit {0})
first_error answer [] = returned tt
first_error answer (url ∷ rest) = and_then (answer url) (first_error answer rest)

abbrev pub post_of : Bytes → Bytes → Post
post_of text url = record { url = url; content_type = codes "application/json"; sent = text }

Outcome-cases : (o : Outcome (Unit {0})) → (o ≡ returned tt) ⊎ ((e : PyError) × (o ≡ raised e))
Outcome-cases (returned u) = inl refl
Outcome-cases (raised e) = inr (e, refl)

post_each_lem :
    (answer : Bytes → Outcome (Unit {0})) (text : Bytes) (to : List Bytes) (posts : List Post)
    → post_each answer text to posts
      ≡ (first_error answer to, posts ++ map (post_of text) (reached answer to))
unfolding post_each reached first_error
post_each_lem answer text [] posts = ap (λ p. (returned tt, p)) (sym (append-nil posts))
post_each_lem answer text (url ∷ rest) posts = elim (Outcome-cases (answer url)) [
  | inl fine ↦
      rw
        (
          fine,
          post_each_lem answer text rest (posts ++ post_of text url ∷ []),
          append_assoc posts (post_of text url ∷ []) (map (post_of text) (reached answer rest)),
        )
        refl
  | inr (e, failed) ↦ rw failed refl
]

abbrev pub ended : Outcome (Unit {0}) → Bool → Outcome Bool
ended (returned u) b = returned b
ended (raised e) b = raised e

ended_lem :
    (r : Outcome (Unit {0})) (posts : List Post)
    → continue r (λ x p. (returned true, p)) posts ≡ (ended r true, posts)
ended_lem (returned u) posts = refl
ended_lem (raised e) posts = refl

-- An event that bearychat reports is posted to each url of the configuration in turn, up to the
-- first post that raises, which send then raises; any other event is posted nowhere.
pub bearychat_send_lem :
    (dumps : Body → Bytes) (answer : Bytes → Outcome (Unit {0})) (to : List Bytes) (o : Origin)
    (e : Event) (posts : List Post)
    → bearychat_send dumps answer to o e posts ≡ (
        if bearychat_reports e
        then (
          ended (first_error answer to) true,
          posts ++ map (post_of (dumps (body o e))) (reached answer to),
        )
        else (returned false, posts))
unfolding bearychat_send
bearychat_send_lem dumps answer to o e posts = elim (Bool-cases (bearychat_reports e)) [
  | inl reported ↦
      rw (reported, post_each_lem answer (dumps (body o e)) to posts)
        (ended_lem (first_error answer to) _)
  | inr dropped ↦ rw dropped refl
]
