-- ===== src/Outbox/Insert.antt =====
-- What `InsertEvent` adds.
use go_wallet_ledger.Base.{String, ◌≡◌, refl, [], ◌∷◌, ◌++◌}
use go_wallet_ledger.Models.Outbox.{Event, Payload}
use go_wallet_ledger.Store.{Engine, World, Tables}
use go_wallet_ledger.Store.Laws.{Succeeds, pure-Succeeds, statement-Succeeds, write-Succeeds}
use go_wallet_ledger.Outbox.{insert_event}

-- One event more, and nothing else.
abbrev pub Announced : Tables → Tables → Type 0
Announced t t' = (event : Event) × (t' ≡ record t { outbox_events = t.outbox_events ++ event ∷ [] })

pub insert_event-Succeeds :
    (e : Engine) (topic : String) (payload : Payload) (w : World)
    → Succeeds (insert_event e topic payload) w λ _ w'. Announced w.tables w'.tables
unfolding insert_event
insert_event-Succeeds e topic payload w =
    statement-Succeeds e _ w (write-Succeeds _ _ _ _ λ holds. pure-Succeeds _ _ (_, refl))
