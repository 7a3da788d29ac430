-- ===== src/Cli/Recording/Sorting.antt =====
-- The order in which a pass of the capture loop writes its media: crates/handycam-cli/src/main.rs.
use handycam_rs.Media.{TimedMediaEvent}
use handycam_rs.Cli.Recording.{key, insert, sort_by_key}
use handycam_rs.Prelude.{
  ℕ, ◌≤◌, ◌≡◌, refl, ap, ◌∙◌, inl, inr, false, List, [], ◌∷◌, arith, leb, ◌==◌, if◌then◌else◌,
  Bool-cases, All,
}

abbrev pub NoneBefore : ℕ → List TimedMediaEvent → Type 0
NoneBefore time events = All (λ event. time ≤ key event) events

abbrev pub IsSorted : List TimedMediaEvent → Type 0
IsSorted [] = Unit
IsSorted (event ∷ events) = NoneBefore (key event) events × IsSorted events

-- The events of one time.
abbrev pub at_time : ℕ → List TimedMediaEvent → List TimedMediaEvent
at_time time [] = []
at_time time (event ∷ events) =
    let later = at_time time events in if key event == time then event ∷ later else later

NoneBefore-weaken :
    (low time : ℕ) (events : List TimedMediaEvent)
    → low ≤ time
    → NoneBefore time events
    → NoneBefore low events
NoneBefore-weaken low time [] h none_before = tt
NoneBefore-weaken low time (event ∷ events) h none_before =
    (omega (arith, none_before.0), NoneBefore-weaken low time events h none_before.1)

insert-NoneBefore :
    (time : ℕ) (event : TimedMediaEvent) (events : List TimedMediaEvent)
    → time ≤ key event
    → NoneBefore time events
    → NoneBefore time (insert event events)
unfolding insert
insert-NoneBefore time event [] h none_before = (h, tt)
insert-NoneBefore time event (next ∷ events) h none_before =
    elim (Bool-cases (leb (key event) (key next))) [
      | inl e ↦ rw e (h, none_before)
      | inr e ↦ rw e (none_before.0, insert-NoneBefore time event events h none_before.1)
    ]

insert-IsSorted :
    (event : TimedMediaEvent) (events : List TimedMediaEvent)
    → IsSorted events
    → IsSorted (insert event events)
unfolding insert
insert-IsSorted event [] sorted = (tt, tt)
insert-IsSorted event (next ∷ events) sorted = elim (Bool-cases (leb (key event) (key next))) [
  | inl e ↦
      let before : key event ≤ key next = ground arith in
      rw e ((before, NoneBefore-weaken (key event) (key next) events before sorted.0), sorted)
  | inr e ↦ rw e (
    insert-NoneBefore (key next) event events (ground arith) sorted.0,
    insert-IsSorted event events sorted.1,
  )
]

insert-at_time :
    (time : ℕ) (event : TimedMediaEvent) (events : List TimedMediaEvent)
    → at_time time (insert event events) ≡ at_time time (event ∷ events)
unfolding insert
insert-at_time time event [] = refl
insert-at_time time event (next ∷ events) = elim (Bool-cases (leb (key event) (key next))) [
  | inl e ↦ rw e refl
  | inr e ↦
      let behind = insert-at_time time event events in
      elim (Bool-cases (key event == time)) [
        | inl now ↦
            let other : (key next == time) ≡ false = ground arith in rw (e, behind, now, other) refl
        | inr later ↦ rw (e, behind, later) refl
      ]
]

-- The media of a pass are written in the order of their observed times, none of them is lost or doubled,
-- and those of the same time keep the order in which they were gathered.
pub sort_by_key-IsStable :
    (events : List TimedMediaEvent)
    → IsSorted (sort_by_key events)
      × ((time : ℕ) → at_time time (sort_by_key events) ≡ at_time time events)
unfolding sort_by_key
sort_by_key-IsStable [] = (tt, λ time. refl)
sort_by_key-IsStable (event ∷ events) =
    let rest = sort_by_key-IsStable events in
    (
      insert-IsSorted event (sort_by_key events) rest.0,
      λ time.
          insert-at_time time event (sort_by_key events)
          ∙ ap (λ (l : List TimedMediaEvent). if key event == time then event ∷ l else l)
              (rest.1 time),
    )
