-- ===== src/Events/Delivery/Reach.antt =====
-- Who gets an event.
use mathlib.Core.List.{append_assoc, append-nil}
use veyron.Events.Bus.{targets}
use veyron.Registry.Types.{Sender}
use veyron.Registry.State.{PluginRegistry}
use veyron.Ipc.Wire.{Wire, Event}
use veyron.Ipc.Framing.{build_frame}
use veyron.Ipc.Channels.{Channels, Outbound, out_frame}
use veyron.Ipc.Kernel.{persist_async, Kernel, Now}
use veyron.Prelude.Maps.{get}
use veyron.Prelude.{
  refl, ◌⊎◌, subst, ◌++◌, ◌==◌, [], ◌∷◌, some, inl, inr, true, false, refl, text_eq, nat_eq, arith,
  if◌then◌else◌, ==_iff, Option-cases, ◌≡◌, List, Bool, Text, ℕ, is_some_and, retain, sym,
  ==_or_not, ◌∙◌,
}
use veyron.Events.Delivery.{deliver, publish, deliver_each, envelope_for}

-- The plugin is registered and receives on the channel.
abbrev pub is_on : PluginRegistry → Sender → Text → Bool
is_on r tx plugin_id = is_some_and (get plugin_id r.by_plugin_id) (λ e. e.write_tx == tx)

-- The event's frame for each of the plugins.
abbrev pub frames_for : Wire → List ℕ → List Text → List Outbound
frames_for w payload [] = []
frames_for w payload (p ∷ ps) = out_frame (build_frame w p 0 payload) ∷ frames_for w payload ps

pub List-cases : (ts : List Text) → (ts ≡ []) ⊎ ((p : Text) × (ps : List Text) × (ts ≡ p ∷ ps))
List-cases [] = inl refl
List-cases (p ∷ ps) = inr (p, ps, refl)

module _ {S : Type 0} (ch : Channels S) (w : Wire) (now : Now) (tx : Sender)
    (takes : (m : Outbound) (s : S) → (ch.try_send tx m s).1 ≡ true) where
  deliver_each-taken :
      (payload : List ℕ) (ps : List Text) (k : Kernel S)
      → ch.taken (deliver_each ch w now payload ps k).chans tx
        ≡ ch.taken k.chans tx ++ frames_for w payload (retain (is_on k.registry tx) ps)
  unfolding deliver_each retain
  deliver_each-taken payload [] k = sym (append-nil (ch.taken k.chans tx))
  deliver_each-taken payload (p ∷ ps) k = elim (Option-cases (get p k.registry.by_plugin_id)) [
    | inl e ↦ rw (e, deliver_each) (deliver_each-taken payload ps k)
    | inr (entry, e) ↦
        let m : Outbound = out_frame (build_frame w p 0 payload) in
        let k' : Kernel S = record k { chans = (ch.try_send entry.write_tx m k.chans).0 } in
        let later = deliver_each-taken payload ps k' in
        elim (==_or_not entry.write_tx tx) [
          | inl same ↦
              let on : (entry.write_tx == tx) ≡ true = (==_iff entry.write_tx tx).1 same in
              let grew : ch.taken k'.chans tx ≡ ch.taken k.chans tx ++ m ∷ [] =
                subst
                  (λ (t : Sender).
                    ch.taken (ch.try_send t m k.chans).0 tx ≡ ch.taken k.chans tx ++ m ∷ [])
                  (sym same) (ch.taken-sent tx m k.chans (takes m k.chans)) in
              rw (e, deliver_each, on)
                ((rw grew at later)
                  ∙ append_assoc (ch.taken k.chans tx) (m ∷ [])
                      (frames_for w payload (retain (is_on k.registry tx) ps)))
          | inr other ↦
              let off : (entry.write_tx == tx) ≡ false =
                ground (arith, ==_iff entry.write_tx tx, other) in
              let quiet : ch.taken k'.chans tx ≡ ch.taken k.chans tx =
                ch.taken-other entry.write_tx tx m k.chans other in
              rw (e, deliver_each, off) (rw quiet at later)
        ]
  ]

  deliver_each_kept :
      (payload : List ℕ) (ps : List Text) (k : Kernel S)
      → (deliver_each ch w now payload ps k).store_calls ≡ k.store_calls
  unfolding deliver_each
  deliver_each_kept payload [] k = refl
  deliver_each_kept payload (p ∷ ps) k = elim (Option-cases (get p k.registry.by_plugin_id)) [
    | inl e ↦ rw (e, deliver_each) (deliver_each_kept payload ps k)
    | inr (entry, e) ↦ rw (e, deliver_each) (deliver_each_kept payload ps _)
  ]

  deliver-taken :
      (ev : Event) (payload : List ℕ) (k : Kernel S)
      → w.encode (envelope_for ch w now ev k.msg_seq) ≡ some payload
      → (ch.taken (deliver ch w now ev k).chans tx
          ≡ ch.taken k.chans tx
            ++ frames_for w payload (retain (is_on k.registry tx) (targets ev.event_type k.bus)))
        × ((deliver ch w now ev k).store_calls ≡ k.store_calls)
  unfolding deliver retain
  deliver-taken ev payload k encoded = elim (List-cases (targets ev.event_type k.bus)) [
    | inl e ↦ rw (deliver, e) (sym (append-nil (ch.taken k.chans tx)), refl)
    | inr (t, ts, e) ↦
        rw (deliver, e, encoded)
          (deliver_each-taken payload (t ∷ ts) _, deliver_each_kept payload (t ∷ ts) _)
  ]

  -- On a channel that takes every item, a published event leaves everything as it was and adds at
  -- the end, for each of its targets that is registered and receives on the channel, one frame to
  -- that plugin with the event's envelope; and the event store, where there is one, is called once,
  -- to persist the event. The envelope is one that can be encoded.
  pub publish_exact :
      (ev : Event) (payload : List ℕ) (k : Kernel S)
      → w.encode (envelope_for ch w now ev k.msg_seq) ≡ some payload
      → (ch.taken (publish ch w now ev k).chans tx
          ≡ ch.taken k.chans tx
            ++ frames_for w payload (retain (is_on k.registry tx) (targets ev.event_type k.bus)))
        × ((publish ch w now ev k).store_calls
            ≡ (if k.has_store then k.store_calls ++ persist_async ev ∷ [] else k.store_calls))
  unfolding publish
  publish_exact ev payload k encoded = deliver-taken ev payload _ encoded

module _ {S : Type 0} (ch : Channels S) (w : Wire) (now : Now) where
  registry-deliver_each :
      (payload : List ℕ) (ps : List Text) (k : Kernel S)
      → (deliver_each ch w now payload ps k).registry ≡ k.registry
  unfolding deliver_each
  registry-deliver_each payload [] k = refl
  registry-deliver_each payload (p ∷ ps) k = elim (Option-cases (get p k.registry.by_plugin_id)) [
    | inl e ↦ rw (e, deliver_each) (registry-deliver_each payload ps k)
    | inr (entry, e) ↦ rw (e, deliver_each) (registry-deliver_each payload ps _)
  ]

  pub registry-publish : (ev : Event) (k : Kernel S) → (publish ch w now ev k).registry ≡ k.registry
  unfolding publish deliver
  registry-publish ev k = elim (List-cases (targets ev.event_type k.bus)) [
    | inl e ↦ rw (publish, deliver, e) refl
    | inr (t, ts, e) ↦ elim (Option-cases (w.encode (envelope_for ch w now ev k.msg_seq))) [
      | inl n ↦ rw (publish, deliver, e, n) refl
      | inr (payload, n) ↦ rw (publish, deliver, e, n) (registry-deliver_each payload (t ∷ ts) _)
    ]
  ]
