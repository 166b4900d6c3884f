-- ===== src/Events/Attempts.antt =====
-- Which receivers an event is posted to, and how often.
use mxtng_auth_services.Common.{
  ℕ, ◌≤◌, ◌≡◌, ap, String, Bool, true, false, not, List, [], ◌∷◌, ◌++◌, length, count, All,
  if◌then◌else◌, truthy, ◌||◌,
}
use mxtng_auth_services.Settings.{Settings, nonempty, reveal}
use mxtng_auth_services.World.{World, Event, HttpReply, response, http_error, invalid_url}
use mxtng_auth_services.Action.{Action, State, Result, ok, Post, continue, ◌>>=◌}

abbrev pub was_accepted : Post → Bool
was_accepted p = p.accepted

-- An attempt to post this event to this receiver.
abbrev pub Carries : String → String → String → Post → Type 0
Carries url id event_type p = (p.url ≡ url) × (p.event_id ≡ id) × (p.event_type ≡ event_type)

-- The attempts for one receiver, newest first: one, and `more` others at most. Only the newest may
-- have been accepted, and where it was not, there were as many as there may be.
pub record Tries (url id event_type : String) (more : ℕ) (attempts : List Post) : Type 0 where
  pub last : Post
  pub earlier : List Post
  pub all : attempts ≡ last ∷ earlier
  pub carry : All (Carries url id event_type) attempts
  pub refused : count was_accepted earlier ≡ 0
  pub few : length earlier ≤ more
  pub given_up : last.accepted ≡ false → length earlier ≡ more

-- One to three attempts for each of these receivers, in their order; the newest stand first.
abbrev pub Serves : String → String → List String → List Post → Type 0
Serves id event_type [] made = made ≡ []
Serves id event_type (url ∷ urls) made =
    (first rest : List Post) × (made ≡ rest ++ first)
    × Tries url id event_type 2 first
    × Serves id event_type urls rest

-- The receivers of an event: none where there is no secret to sign it with.
abbrev pub receivers : Settings → List String
receivers cfg =
    if not (nonempty cfg.webhook_endpoints) || not (truthy (reveal cfg.webhook_secret))
    then []
    else cfg.webhook_endpoints

abbrev pub is_posted : HttpReply → Bool
is_posted invalid_url = false
is_posted (response _ _) = true
is_posted (http_error _) = true

-- The URL of a receiver is not malformed.
abbrev pub WellFormed : World → String → Type 0
WellFormed w url = (n : ℕ) (event : Event) → is_posted (w.post_event n url event) ≡ true

-- An action that came back after these posts.
pub record Posts (w : World) (P : List Post → Type 0) (m : Action (Unit {0})) (s : State)
    : Type 0 where
  pub result : (m w s).0 ≡ ok tt
  pub made : List Post
  pub posts : (m w s).1.posts ≡ made ++ s.posts
  pub served : P made

abbrev post_of : String → Event → Bool → Post
post_of url event accepted = record {
  url = url;
  event_id = event.id;
  event_type = event.event_type;
  accepted = accepted;
}

-- An attempt that came back.
record Once (w : World) (url : String) (event : Event) (m : Action Bool) (s : State) : Type 0 where
  accepted : Bool
  after : State
  done : m w s ≡ (ok accepted, after)
  noted : after.posts ≡ post_of url event accepted ∷ s.posts

module _ (w : World) where
  after :
      {A : Type 0} (m : Action A) (f : A → Action (Unit {0})) (s s1 : State) (a : A)
      → m w s ≡ (ok a, s1)
      → (m >>= f) w s ≡ f a w s1
  unfolding ◌>>=◌
  after m f s s1 a e = ap (λ (x : Result _ × State). continue x.0 f w x.1) e
