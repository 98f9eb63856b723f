-- ===== src/Replay/Reversible/Globals.antt =====
-- The master gain, the tempo register and the name of a scene are taken back by the inverse captured.
use daw_project.Common.{
  arith, none, ◌||◌, Option-cases, ◌≤◌, if◌then◌else◌, ◌&&◌, ◌&&◌, String, true, false, Option,
  some, List, ◌≡◌, refl, ap, ◌∙◌, sym, Bool-cases, inl, inr,
}
use daw_project.Common.Find.{
  find, update_first, find-update_first, update_first_restore, find_passes,
}
use daw_project.Num.{Num, num, clamp-id, eqb_num, eqb_num_comm}
use daw_project.Tempo.{clamp_milli_bpm}
use daw_project.Schema.{Name, SceneDef, ProjectDef, or_else, is_some, ensure_v2}
use daw_project.Undo.{InverseOp}
use daw_project.Document.{applied, ignored}
use daw_project.Document.DisplayName.{display_name, eqb_name, eqb_name_comm}
use daw_project.Mutators.Tracks
use daw_project.Mutators.Tracks.{with_tempo, clamp_gain, is_empty}
use daw_project.Mutators.Tracks.Undo.{is_empty-false}
use daw_project.Mutators.Clips.Undo.{ensure_v2-id}
use daw_project.Mutators.Scenes
use daw_project.Mutators.Scenes.{scene_is, scenes_of, with_scene_name}
use daw_project.Replay.{perform}
use daw_project.Replay.Reversible.{Reversible, BackTo}

-- The branches of the tempo write, by the register.
tempo_write :
    (next old : Num) (register : Option Num) (d : ProjectDef)
    → register ≡ some old
    → eqb_num next old ≡ false
    → (if eqb_num next (or_else register (num 120000)) && is_some register
        then ignored
        else applied (InverseOp.set_tempo (or_else register (num 120000))) d)
      ≡ applied (InverseOp.set_tempo old) d
tempo_write next old register d e differ = rw (e, differ) refl

tempo_kept :
    (next old : Num) (register : Option Num) (d : ProjectDef)
    → register ≡ some old
    → eqb_num next old ≡ true
    → (if eqb_num next (or_else register (num 120000)) && is_some register
        then ignored
        else applied (InverseOp.set_tempo (or_else register (num 120000))) d)
      ≡ ignored
tempo_kept next old register d e same = rw (e, same) refl

module _ (fresh : String) (d : ProjectDef) where
  pub master-BackTo :
      (g : Num)
      → Reversible (InverseOp.set_master_gain g) d
      → BackTo fresh d (Tracks.set_master_gain g d)
  unfolding Tracks.set_master_gain perform
  master-BackTo g (old, e, lo, hi) =
      let reads : or_else d.master_gain (num 1) ≡ old = rw e refl in
      (
        _,
        ap (λ m. applied (InverseOp.set_master_gain (clamp_gain g)) (record d { master_gain = m }))
            (ap (λ x. some (clamp_gain x)) reads
              ∙ ap some (clamp-id (num 0) (num 2) old lo hi)
              ∙ sym e),
      )

  tempo_back :
      (next old : Num)
      → d.tempo_milli_bpm ≡ some old
      → num (clamp_milli_bpm old) ≡ old
      → 2 ≤ d.schema_version
      → eqb_num next old ≡ false
      → Tracks.set_tempo_milli_bpm old (with_tempo next d) ≡ applied (InverseOp.set_tempo next) d
  unfolding Tracks.set_tempo_milli_bpm
  tempo_back next old e clean v differ =
      rw (clean, eqb_num_comm old next, differ)
        (ap (applied (InverseOp.set_tempo next)) (
          ap {A = ProjectDef} (λ s. record (ensure_v2 s) { tempo_milli_bpm = some old })
            (ap {A = ProjectDef} (λ s. record s { tempo_milli_bpm = some next }) (ensure_v2-id d v))
          ∙ ap {A = ProjectDef} (λ s. record s { tempo_milli_bpm = some old })
              (ensure_v2-id (record d { tempo_milli_bpm = some next }) v)
          ∙ ap (λ x. record d { tempo_milli_bpm = x }) (sym e)))

  tempo_applied :
      (m old : Num)
      → d.tempo_milli_bpm ≡ some old
      → eqb_num (num (clamp_milli_bpm m)) old ≡ false
      → Tracks.set_tempo_milli_bpm m d
        ≡ applied (InverseOp.set_tempo old) (with_tempo (num (clamp_milli_bpm m)) d)
  unfolding Tracks.set_tempo_milli_bpm
  tempo_applied m old e differ =
      tempo_write (num (clamp_milli_bpm m)) old d.tempo_milli_bpm _ e differ

  tempo_ignored :
      (m old : Num)
      → d.tempo_milli_bpm ≡ some old
      → eqb_num (num (clamp_milli_bpm m)) old ≡ true
      → Tracks.set_tempo_milli_bpm m d ≡ ignored
  unfolding Tracks.set_tempo_milli_bpm
  tempo_ignored m old e same = tempo_kept (num (clamp_milli_bpm m)) old d.tempo_milli_bpm _ e same

  pub tempo-BackTo :
      (m : Num)
      → Reversible (InverseOp.set_tempo m) d
      → BackTo fresh d (Tracks.set_tempo_milli_bpm m d)
  unfolding perform
  tempo-BackTo m ((old, e, clean), v) = elim (Bool-cases (eqb_num (num (clamp_milli_bpm m)) old)) [
    | inl same ↦ rw (tempo_ignored m old e same) tt
    | inr differ ↦
        rw (tempo_applied m old e differ)
          (_, tempo_back (num (clamp_milli_bpm m)) old e clean v differ)
  ]

  scene_back :
      (id : String) (next : Name) (scenes : List SceneDef) (s : SceneDef)
      → d.scenes ≡ some scenes
      → find (scene_is id) scenes ≡ some s
      → display_name s.name ≡ s.name
      → is_empty s.name ≡ false
      → eqb_name next s.name ≡ false
      → Scenes.rename_scene id s.name
          (record d { scenes = some (update_first (scene_is id) (with_scene_name next) scenes) })
        ≡ applied (InverseOp.rename_scene id next) d
  unfolding Scenes.rename_scene
  scene_back id next scenes s e found clean full differ =
      let passes = find_passes (scene_is id) scenes s found in
      rw
        (
          find-update_first (scene_is id) (with_scene_name next) scenes s found passes,
          Scenes.rename_scene,
          clean,
          full,
          eqb_name_comm s.name next,
          differ,
        )
        (ap (applied (InverseOp.rename_scene id next)) (
          ap (λ l. record d { scenes = l })
            (ap some (
                update_first_restore (scene_is id) (with_scene_name next) (with_scene_name s.name)
                  scenes s found passes refl)
              ∙ sym e)))

  scene_absent :
      (id : String) (n : Name)
      → find (scene_is id) (scenes_of d) ≡ none
      → Scenes.rename_scene id n d ≡ ignored
  unfolding Scenes.rename_scene
  scene_absent id n e = rw (e, Scenes.rename_scene) refl

  scene_applied :
      (id : String) (n : Name) (scenes : List SceneDef) (s : SceneDef)
      → d.scenes ≡ some scenes
      → find (scene_is id) (scenes_of d) ≡ some s
      → (is_empty (display_name n) || eqb_name (display_name n) s.name) ≡ false
      → Scenes.rename_scene id n d
        ≡ applied (InverseOp.rename_scene id s.name) (record d {
          scenes = some (update_first (scene_is id) (with_scene_name (display_name n)) scenes);
        })
  unfolding Scenes.rename_scene
  scene_applied id n scenes s e found new =
      let l : scenes_of d ≡ scenes = rw e refl in
      rw (found, Scenes.rename_scene, new)
        (ap
          (λ xs. applied (InverseOp.rename_scene id s.name) (record d {
            scenes = some (update_first (scene_is id) (with_scene_name (display_name n)) xs);
          }))
          l)

  scene_same :
      (id : String) (n : Name) (s : SceneDef)
      → find (scene_is id) (scenes_of d) ≡ some s
      → (is_empty (display_name n) || eqb_name (display_name n) s.name) ≡ true
      → Scenes.rename_scene id n d ≡ ignored
  unfolding Scenes.rename_scene
  scene_same id n s found same = rw (found, Scenes.rename_scene, same) refl

  pub scene_name-BackTo :
      (id : String) (n : Name)
      → Reversible (InverseOp.rename_scene id n) d
      → BackTo fresh d (Scenes.rename_scene id n d)
  unfolding perform find
  scene_name-BackTo id n r = elim (Option-cases d.scenes) [
    | inl e ↦ rw (scene_absent id n (rw e refl)) tt
    | inr (scenes, e) ↦ elim (Option-cases (find (scene_is id) (scenes_of d))) [
      | inl gone ↦ rw (scene_absent id n gone) tt
      | inr (s, found) ↦
          elim (Bool-cases (is_empty (display_name n) || eqb_name (display_name n) s.name)) [
            | inl same ↦ rw (scene_same id n s found same) tt
            | inr new ↦
                let (clean, full) = r s found in
                rw (scene_applied id n scenes s e found new) (
                  _,
                  scene_back id (display_name n) scenes s e (rw e at found) clean
                      (is_empty-false s.name full) (ground (arith, new)),
                )
          ]
    ]
  ]
