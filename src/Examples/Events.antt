-- ===== src/Examples/Events.antt =====
-- Two plugins that listen to events.
use veyron.Prelude.{
  bytes, text_eq, nat_eq, ◌≡◌, [], ◌∷◌, Text, Distinct, ◌==◌, not, ◌&&◌, contains, ◌||◌,
}
use veyron.Events.Bus.{EventBus, new, subscribe, unsubscribe_all, targets}
use veyron.Events.Bus.Subscriptions.{
  IsMutual, subscribed, new-IsMutual, targets_exact, subscribe_lem, unsubscribe_all_lem,
}
use veyron.Examples.Data.{alice}

abbrev login : Text
login = bytes "login"

abbrev listening : EventBus
listening = subscribe alice (login ∷ bytes "*" ∷ []) new

listening-IsMutual : IsMutual listening
listening-IsMutual = (subscribe_lem alice (login ∷ bytes "*" ∷ []) new new-IsMutual).0

unsubscribe_all_lem_example :
    IsMutual (unsubscribe_all alice listening)
    × ((q t : Text)
        → subscribed q t (unsubscribe_all alice listening)
          ≡ (not (alice == q) && subscribed q t listening))
unsubscribe_all_lem_example = unsubscribe_all_lem alice listening listening-IsMutual

targets_exact_example :
    Distinct (targets login listening)
    × ((q : Text)
        → contains (targets login listening) q
          ≡ (subscribed q login listening || subscribed q (bytes "*") listening))
targets_exact_example = targets_exact login listening
