-- ===== src/Protocol/Progress.antt =====
-- A first launch over a substrate that accepts work gets through.
use hedloom.Base.{◌≡◌, refl, String, Option, [], ◌∷◌}
use hedloom.Json.{null, Fields, get}
use hedloom.Result.{ok}
use hedloom.Journal.Disk.{
  layout_check, created_record, append_line, manifest_of, parse_lines, raw_lines, set_standing,
  standing_of, events_of, fold_disk, set_manifest,
}
use hedloom.Journal.Store.{
  claim, fold, append, begin_try, create_record, make_standing, read_manifest, read_standing,
  release, require_layout, publish_terminal,
}
use hedloom.Journal.World.{◌>>=◌, gets, write, modify, lift, durable, now, pure, raise}
use hedloom.Journal.Fold.{
  fold_events, fold_loop, fold_finish, sort_tries, fold_event, fold_known, fold_numbered,
  fold_pinned, fold_unpinned, frozen_file, frozen_files, insert_try, release_pin, touch, update_try,
}
use hedloom.Attempt.Env.{
  Env, call_submit, existing, is_reusable, repair, require_matching_inputs, select,
}
use hedloom.Attempt.Launch.{
  LaunchResult, launch_or_attach, launch_locked, after_submit, call_discover, completed,
  launch_current, launch_new, launch_phase, launch_published, launch_standing, launch_unpublished,
  record_created, record_placement, reuse_or_retry, settle_intent,
}
use hedloom.Reuse.{input_digest, material_of}
use hedloom.Attempt.Reconcile.{
  reconcile, reconcile_locked, reconcile_published, observe, after_observation, conclude,
}
use hedloom.Transport.{accepted}
use hedloom.Protocol.{untouched}

module _ {S : Type 0} (env : Env S) (handle : String → Fields → S → Fields)
    (after : String → Fields → S → S) where
  -- The environment, with a substrate that accepts whatever it is given.
  abbrev pub accepting : Env S
  accepting = record env {
    transport = record env.transport {
      submit = λ name bundle s. (accepted (handle name bundle s), after name bundle s);
    };
  }

  -- The first launch of a record, of a bundle without a placement, by a process that lives on, over a
  -- substrate that accepts the work, returns with the disposition `claimed`, after one submission.
  pub first_launch_claims :
      (bundle : Fields) (work_dir : Option String) (s : S)
      → get "placement" bundle ≡ null
      → (r : LaunchResult) × ((launch_or_attach accepting bundle work_dir (untouched s)).0 ≡ ok r)
        × (r.disposition ≡ "claimed")
        × ((launch_or_attach accepting bundle work_dir (untouched s)).1.submissions ≡ 0 ∷ [])
  unfolding layout_check created_record append_line manifest_of parse_lines raw_lines set_standing
      standing_of events_of fold_disk set_manifest claim fold append begin_try create_record
      make_standing read_manifest read_standing release require_layout publish_terminal ◌>>=◌ gets
      write modify lift durable now pure raise fold_events fold_loop fold_finish sort_tries
      fold_event fold_known fold_numbered fold_pinned fold_unpinned frozen_file frozen_files
      insert_try release_pin touch update_try call_submit existing is_reusable repair
      require_matching_inputs select launch_or_attach launch_locked after_submit call_discover
      completed launch_current launch_new launch_phase launch_published launch_standing
      launch_unpublished record_created record_placement reuse_or_retry settle_intent input_digest
      material_of reconcile reconcile_locked reconcile_published observe after_observation conclude
  first_launch_claims bundle work_dir s plain = rw plain (_, refl, refl, refl)
