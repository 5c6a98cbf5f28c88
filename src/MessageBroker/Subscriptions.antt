-- ===== src/MessageBroker/Subscriptions.antt =====
-- The sockets of a subscriber: each subscription has a connected one, and no two are connected to
-- one publisher.
pub mod SocketArray
mod Publishers
use sugo_machine_application.Prelude.{
  ℕ, zero, suc, ◌≡◌, ◌≢◌, sym, not, ◌==◌, List, [], ◌∷◌, Option, none, some, arith, All, ◌⊎◌, inl,
  inr, Bool-cases,
}
use sugo_machine_application.MessageBroker.{find, erase, is_found}
use sugo_machine_application.MessageBroker.Identifier.{Bytes, create_identifier}
use sugo_machine_application.MessageBroker.Client.{eqb_bytes}
use sugo_machine_application.MessageBroker.Subscriber.{
  SubscriberState, SocketCall, Erased, Sockets, Request, subscription, unsubscription,
  get_subscription_count, close_unused, drop_topic, unsubscribe,
}
use SocketArray.{
  Unique, Connected, eqb_bytes_nil, eqb_bytes_sym, eqb_bytes-is_address, connected_at-set_address,
  connected_at-set_address_other, find_socket-set_address, eqb_bytes-not_first, set_address-Unique,
  erase-Connected, clear-Connected, found-Connected,
}

pub record IsWellFormed (s : SubscriberState) : Type 0 where
  pub subscribed_connected : Connected s.addresses s.subscriptions
  pub unique : Unique s.addresses

-- The requests without the unsubscriptions.
unfoldable pub only_subscriptions : List Request → List Request
only_subscriptions [] = []
only_subscriptions (subscription address topic ∷ rs) =
    subscription address topic ∷ only_subscriptions rs
only_subscriptions (unsubscription address topic ∷ rs) = only_subscriptions rs

-- The operations

module _ (sockets : Sockets) where
  close_unused-IsWellFormed :
      (i read : ℕ) (s : SubscriberState)
      → read ≡ i
      → IsWellFormed s
      → IsWellFormed (close_unused sockets i read s).1
  unfolding close_unused
  close_unused-IsWellFormed i read s kept h =
      elim (Bool-cases (get_subscription_count read s.subscriptions == 0)) [
        | inl hit ↦ ground (
          arith,
          clear-Connected i s.addresses s.subscriptions,
          set_address-Unique [] i s.addresses (λ k. cc) h.unique,
        )
        | inr miss ↦ ground arith
      ]

  -- The read of the erased entry still gives what the entry held.
  abbrev Kept : Erased → Type 0
  Kept erased = (calls : List SocketCall) (i : ℕ) → erased calls i ≡ i

  drop_topic-IsWellFormed :
      (erased : Erased) (id : ℕ) (topic : Bytes) (place : Option ℕ) (s : SubscriberState)
      → Kept erased
      → IsWellFormed s
      → IsWellFormed (drop_topic sockets erased id topic place s).1
  drop_topic-IsWellFormed erased id topic none s kept h = h
  drop_topic-IsWellFormed erased id topic (some i) s kept h =
      close_unused-IsWellFormed i _ _ (kept _ i) (record {
        subscribed_connected =
            erase-Connected id s.addresses s.subscriptions h.subscribed_connected;
        unique = h.unique;
      })

  -- With such reads an unsubscription keeps the subscriber well-formed.
  unsubscribe-IsWellFormed :
      (erased : Erased) (address topic : Bytes) (s : SubscriberState)
      → Kept erased
      → IsWellFormed s
      → IsWellFormed (unsubscribe sockets erased address topic s).1
  unfolding unsubscribe
  unsubscribe-IsWellFormed erased address topic s kept h =
      drop_topic-IsWellFormed erased _ topic _ s kept h
