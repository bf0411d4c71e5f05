-- ===== src/Session/Meta.antt =====
-- When a write of metadata is safe.
use kae_agent_public.Base.{
  String, [], Option, none, some, Dict, insert, lookup-insert, ◌==◌, if◌then◌else◌, ◌≡◌, refl, ◌↔◌,
  Option-cases, inl, inr,
}
use kae_agent_public.Engine.Commands.{clone_string_map}
use kae_agent_public.Session.{
  Session, SessionSnapshot, set_meta, get_meta, restore, new_session_from_snapshot, copy_metadata,
}

copied : (m : Option (Dict String)) → (d : Dict String) × (copy_metadata m ≡ some d)
unfolding copy_metadata
copied none = ([], refl)
copied (some m) = (m, refl)

module _ {F : Type 0} where
  -- A session made from a snapshot panics at a write of metadata exactly where the snapshot has nil
  -- metadata.
  pub set_meta-from_snapshot :
      (key value : String) (snap : SessionSnapshot F)
      → (set_meta key value (new_session_from_snapshot snap) ≡ none) ↔ (snap.metadata ≡ none)
  unfolding set_meta new_session_from_snapshot clone_string_map
  set_meta-from_snapshot key value snap = elim (Option-cases snap.metadata) [
    | inl p ↦ rw p ((λ h. refl), (λ h. refl))
    | inr (m, p) ↦ rw p ((λ h. cc), (λ h. cc))
  ]

  meta_of :
      (key value : String) (s : Session F) (m : Dict String)
      → s.metadata ≡ some m
      → (t : Session F) × (set_meta key value s ≡ some t)
        × ((j : String) → get_meta j t ≡ (if key == j then some value else get_meta j s))
  unfolding set_meta get_meta
  meta_of key value s m p =
      rw p (
        record s { metadata = some (insert key value m) },
        refl,
        (λ j. lookup-insert key j value m),
      )

  -- On a session that has been restored, whatever the snapshot, a write of metadata goes through, and
  -- then each key reads as before but the one that was written.
  pub set_meta-restore :
      (key value : String) (snap : SessionSnapshot F) (s : Session F)
      → (t : Session F) × (set_meta key value (restore snap s) ≡ some t)
        × ((j : String)
            → get_meta j t ≡ (if key == j then some value else get_meta j (restore snap s)))
  set_meta-restore key value snap s =
      let (m, p) = copied snap.metadata in
      meta_of key value (restore snap s) m (unfold restore in p)
