-- ===== src/Outbox/Delivered.antt =====
-- internal/outbox: the events that are marked as published, and what the broker has.
use go_wallet_ledger.Base.{
  ℕ, String, ◌≡◌, refl, sym, ◌∙◌, List, ◌++◌, Bool, true, false, ◌==◌, ◌⊎◌, inl, inr, Bool-cases,
  some, All, All-map, All-update_rows, All-zip, leb, update_rows, if◌then◌else◌,
}
use mathlib.Core.List.Memᴰ
use mathlib.Core.List.{Memᴰ}
use go_wallet_ledger.Models.Errors.{Error}
use go_wallet_ledger.Models.Outbox.{Event, EventStatus, Payload}
use go_wallet_ledger.Store.{Engine}
use go_wallet_ledger.Outbox.{published, failed_once}

-- A published event's record is in the broker.
abbrev pub Backs : EventStatus → String × Payload → List (String × Payload) → Type 0
Backs EventStatus.published r broker = Memᴰ r broker
Backs EventStatus.pending r broker = Unit
Backs EventStatus.failed r broker = Unit

abbrev pub IsDelivered : List (String × Payload) → Event → Type 0
IsDelivered broker ev = Backs ev.status (ev.topic, ev.payload) broker

-- Rows with one id have one record.
abbrev pub Agrees : Event → Event → Type 0
Agrees ev r = ((r.id == ev.id) ≡ false) ⊎ ((r.topic ≡ ev.topic) × (r.payload ≡ ev.payload))

abbrev pub IsCanonical : Engine → Event → Type 0
IsCanonical e ev = e.parse_uuid ev.id ≡ some ev.id

pub record Consistent (e : Engine) (rows : List Event) (broker : List (String × Payload))
    : Type 0 where
  pub agree : All (λ (ev : Event). All (Agrees ev) rows) rows
  pub canonical : All (IsCanonical e) rows
  pub delivered : All (IsDelivered broker) rows

module _ (e : Engine) where
  -- The id and the record are as they were.
  abbrev pub SameRecord : Event → Event → Type 0
  SameRecord r r' = (r'.id ≡ r.id) × (r'.topic ≡ r.topic) × (r'.payload ≡ r.payload)

  updated-SameRecord :
      (p : Event → Bool) (f : Event → Event) (z : Event)
      → SameRecord z (f z)
      → SameRecord z (if p z then f z else z)
  updated-SameRecord p f z h = elim (Bool-cases (p z)) [
    | inl hit ↦ rw hit h
    | inr miss ↦ rw miss (refl, refl, refl)
  ]

  Agrees-same :
      (ev ev' r r' : Event) → SameRecord ev ev' → SameRecord r r' → Agrees ev r → Agrees ev' r'
  Agrees-same ev ev' r r' h k (inl differ) = inl (rw (h.0, k.0) differ)
  Agrees-same ev ev' r r' h k (inr same) = inr (k.1 ∙ same.0 ∙ sym h.1, k.2 ∙ same.1 ∙ sym h.2)

  module _ (p : Event → Bool) (f : Event → Event) (keeps : (z : Event) → SameRecord z (f z)) where
    pub updated-Agrees :
        (ev : Event) (rows : List Event)
        → All (Agrees ev) rows
        → All (Agrees ev) (update_rows p f rows)
    updated-Agrees ev rows h =
        All-update_rows (Agrees ev) (Agrees ev) p f
          (λ r a.
            Agrees-same ev ev r (if p r then f r else r) (refl, refl, refl)
              (updated-SameRecord p f r (keeps r)) a)
          rows h

    pub updated-agree :
        (rows : List Event)
        → All (λ (ev : Event). All (Agrees ev) rows) rows
        → All (λ (ev : Event). All (Agrees ev) (update_rows p f rows)) (update_rows p f rows)
    updated-agree rows h =
        All-update_rows (λ (ev : Event). All (Agrees ev) rows)
          (λ (ev : Event). All (Agrees ev) (update_rows p f rows)) p f
          (λ ev a.
            let ev' = if p ev then f ev else ev in
            All-update_rows (Agrees ev) (Agrees ev') p f
              (λ r b.
                Agrees-same ev ev' r (if p r then f r else r) (updated-SameRecord p f ev (keeps ev))
                  (updated-SameRecord p f r (keeps r)) b)
              rows a)
          rows h

    pub updated-IsCanonical :
        (rows : List Event) → All (IsCanonical e) rows → All (IsCanonical e) (update_rows p f rows)
    updated-IsCanonical rows h =
        All-update_rows (IsCanonical e) (IsCanonical e) p f
          (λ r c. rw (updated-SameRecord p f r (keeps r)).0 c) rows h

  -- A row that is published has the record of the event that was sent.
  module _ (ev : Event) (now : ℕ) (broker : List (String × Payload))
      (sent : Memᴰ (ev.topic, ev.payload) broker) where
    hit-IsDelivered :
        (r : Event) → (r.id == ev.id) ≡ true → Agrees ev r → IsDelivered broker (published now r)
    hit-IsDelivered r hit (inl differ) = cc
    hit-IsDelivered r hit (inr same) = rw (same.0, same.1) sent

    pub published-IsDelivered :
        (rows : List Event)
        → All (Agrees ev) rows
        → All (IsDelivered broker) rows
        → All (IsDelivered broker) (update_rows (λ (r : Event). r.id == ev.id) (published now) rows)
    published-IsDelivered rows a d =
        All-update_rows (λ (r : Event). Agrees ev r × IsDelivered broker r) (IsDelivered broker)
          (λ (r : Event). r.id == ev.id) (published now)
          (λ r h. elim (Bool-cases (r.id == ev.id)) [
            | inl hit ↦ rw hit (hit-IsDelivered r hit h.0)
            | inr miss ↦ rw miss h.1
          ])
          rows (All-zip (Agrees ev) (IsDelivered broker) rows a d)

  failed_once-IsDelivered :
      (now : ℕ) (error : Error) (broker : List (String × Payload)) (r : Event)
      → IsDelivered broker (failed_once now error r)
  failed_once-IsDelivered now error broker r = elim (Bool-cases (leb 5 r.attempts)) [
    | inl last ↦ rw last tt
    | inr early ↦ rw early tt
  ]

  pub failed-IsDelivered :
      (p : Event → Bool) (now : ℕ) (error : Error) (broker : List (String × Payload))
      (rows : List Event)
      → All (IsDelivered broker) rows
      → All (IsDelivered broker) (update_rows p (failed_once now error) rows)
  failed-IsDelivered p now error broker rows d =
      All-update_rows (IsDelivered broker) (IsDelivered broker) p (failed_once now error)
        (λ r h. elim (Bool-cases (p r)) [
          | inl hit ↦ rw hit (failed_once-IsDelivered now error broker r)
          | inr miss ↦ rw miss h
        ])
        rows d

  -- What the broker has it keeps.
  Backs-later :
      (status : EventStatus) (x : String × Payload) (broker more : List (String × Payload))
      → Backs status x broker
      → Backs status x (broker ++ more)
  Backs-later EventStatus.published x broker more h = Memᴰ.append_left more h
  Backs-later EventStatus.pending x broker more h = tt
  Backs-later EventStatus.failed x broker more h = tt

  pub later-Consistent :
      (rows : List Event) (broker more : List (String × Payload))
      → Consistent e rows broker
      → Consistent e rows (broker ++ more)
  later-Consistent rows broker more h = record {
    agree = h.agree;
    canonical = h.canonical;
    delivered =
        All-map (IsDelivered broker) (IsDelivered (broker ++ more))
          (λ r d. Backs-later r.status (r.topic, r.payload) broker more d) rows h.delivered;
  }
