-- ===== src/Examples/Registry.antt =====
-- The registry: one action with two providers, two registrations and a removal.
use veyron.Utils.Errors.{ok}
use veyron.Prelude.Maps.{get}
use veyron.Registry.ActionIndex.{ActionIndex, unindex_action, index_action}
use veyron.Registry.Register.{
  unregister, register_with_device, check_slots, commit, register_device,
}
use veyron.Registry.Register.Lookup.{Explains, find_action_provider_exact}
use veyron.Registry.ActionIndex.Providers.{
  providers, IsIndex, providers-unindex_action, providers-index_action,
}
use veyron.Utils.Validate.{validate_plugin_id, validate_identifier, is_id_byte}
use veyron.Prelude.Maps.{insert}
use veyron.Registry.Register.{upsert_device, index_actions}
use veyron.Prelude.{
  text_beq, all, is_empty, bytes, text_eq, nat_eq, ◌≡◌, refl, [], ◌∷◌, if◌then◌else◌, ◌==◌,
  text_beq, add, without,
}
use veyron.Registry.State.{new, find_action_provider}
use veyron.Registry.Register.Consistent.{
  IsConsistent, new-IsConsistent, register_with_device-IsConsistent, unregister-IsConsistent,
}
use veyron.Examples.Data.{
  manifest, alice, bob, play, alice_registry, no_meta, both_registry, device_meta, lamp_registry,
}

abbrev one_provider : ActionIndex
one_provider = record { action_index = (play, alice) ∷ []; ambiguous_actions = [] }

one_provider-IsIndex : IsIndex one_provider
unfolding get text_beq
one_provider-IsIndex action = tt

providers-index_action_example :
    providers (index_action play bob one_provider) play
    ≡ (if play == play then add bob (providers one_provider play) else providers one_provider play)
providers-index_action_example =
    providers-index_action play bob one_provider one_provider-IsIndex play

providers-unindex_action_example : providers (unindex_action play alice one_provider) play ≡ (
    if play == play
    then without alice (providers one_provider play)
    else providers one_provider play)
providers-unindex_action_example =
    providers-unindex_action play alice one_provider one_provider-IsIndex play

alice_registers :
    register_with_device alice 1 (manifest (play ∷ []) []) 10 no_meta 0 0 new ≡ ok alice_registry
unfolding register_with_device check_slots commit validate_plugin_id validate_identifier is_empty
    text_beq all is_id_byte get insert upsert_device index_actions index_action
alice_registers = refl

bob_registers :
    register_with_device bob 2 (manifest [] (alice ∷ [])) 20 no_meta 0 0 alice_registry
    ≡ ok both_registry
unfolding register_with_device check_slots commit validate_plugin_id validate_identifier is_empty
    text_beq all is_id_byte get insert upsert_device index_actions index_action
bob_registers = refl

alice_registry-IsConsistent : IsConsistent alice_registry
alice_registry-IsConsistent =
    register_with_device-IsConsistent alice 1 (manifest (play ∷ []) []) 10 no_meta 0 0 new
      alice_registry new-IsConsistent alice_registers

register_with_device-IsConsistent_example : IsConsistent both_registry
register_with_device-IsConsistent_example =
    register_with_device-IsConsistent bob 2 (manifest [] (alice ∷ [])) 20 no_meta 0 0 alice_registry
      both_registry alice_registry-IsConsistent bob_registers

lamp_registers :
    register_device (bytes "lamp") 3 (play ∷ []) (manifest [] []) 30 device_meta 0 0 alice_registry
    ≡ ok lamp_registry
unfolding register_device check_slots commit validate_plugin_id validate_identifier is_empty
    text_beq all is_id_byte get insert upsert_device index_actions index_action
lamp_registers = refl

unregister-IsConsistent_example : IsConsistent (unregister alice alice_registry)
unregister-IsConsistent_example =
    unregister-IsConsistent alice alice_registry alice_registry-IsConsistent

find_action_provider_exact_example :
    Explains alice_registry play (find_action_provider play alice_registry)
find_action_provider_exact_example =
    find_action_provider_exact alice_registry alice_registry-IsConsistent play
