-- ===== src/CasDir/Lawful.antt =====
-- oci/cas/dir/dir.go: the directory store and the laws of the interface of stores.
use umoci.Base.{Bool, String, Option}
use umoci.Base.Errors.{GoError, wrapped}
use umoci.Base.Result.{Result, wrap}
use umoci.Base.Program.{Program}
use umoci.Image.{Index}
use umoci.Cas
use umoci.CasDir.Disk.{Location, Disk, Digests, Json}
use umoci.CasDir.Engine.{
  DirEngine, delete_blob, list_blobs, put_blob, get_blob, stat_blob, put_index, get_index, clean,
}
use umoci.CasDir.Laws.{IsLawfulDisk, TempOf}
use umoci.CasDir.Quiet.{put_index-Put, clean-Quiet, put_blob-Tidied, delete_blob-Tidied}
use umoci.CasDir.Blobs.{IsLawfulDigests, has}
use umoci.CasDir.Flat.{IsFlat, put_index-Flat, put_blob-Flat, delete_blob-Flat, clean-Flat}

module _ {S C : Type 0} (O : Disk S C) (G : Digests) (J : Json C) (root : Location)
    (look : S → Location → Option C) (Temp : Location → Type 0) (L : IsLawfulDisk O look Temp root)
    (D : IsLawfulDigests G) (Flat : S → Type 0) (F : IsFlat O look root Flat) where
  abbrev holds : S → String → Bool
  holds = has O G J root look Temp L D

  -- The temporary directory of the engine is one, and the directory of blobs is flat, as from Open on.
  abbrev pub Tidy : DirEngine × S → Type 0
  Tidy x = TempOf O G J root look Temp L x.0.temp × Flat x.1

  -- An operation on tidy states.
  abbrev tidily :
      {A : Type 0} (m : Program (DirEngine × S) A)
      → ((x : DirEngine × S) → Tidy x → Tidy (m x).1)
      → ((x : DirEngine × S) × Tidy x)
      → Result GoError A × ((x : DirEngine × S) × Tidy x)
  tidily m h (x, t) = let r = m x in (r.0, (r.1, h x t))

  -- dirEngine, with what makes it tidy as an invariant of its state.
  abbrev pub tidy_engine : Cas.Engine
  tidy_engine = record {
    State = (x : DirEngine × S) × Tidy x;
    put_blob = λ content. tidily (put_blob O G J root content) (λ x t. (
      put_blob-Tidied O G J root look Temp L content x t.0,
      put_blob-Flat O G J root look Temp L Flat F content x t.0 t.1,
    ));
    get_blob = λ d x. get_blob O G J root d x.0;
    stat_blob = λ d x. stat_blob O G J root d x.0;
    put_index = λ i. tidily (put_index O G J root i) (λ x t. (
      (put_index-Put O G J root look Temp L i x t.0).0,
      put_index-Flat O G J root look Temp L Flat F i x t.0 t.1,
    ));
    get_index = λ x. get_index O G J root x.0;
    delete_blob = λ d. tidily (delete_blob O G J root d) (λ x t. (
      delete_blob-Tidied O G J root look Temp L d x t.0,
      delete_blob-Flat O G J root look Temp L Flat F d x t.1,
    ));
    list_blobs = λ x. list_blobs O G J root x.0;
    clean = tidily (clean O G J root) (λ x t. (
      (clean-Quiet O G J root look Temp L x t.0).0,
      clean-Flat O G J root look Temp L Flat F x t.1,
    ));
  }

  -- What GetIndex makes of an index that was written: what the decoder makes of what the encoder did.
  abbrev pub through_json : Index → Result GoError Index
  through_json i = wrap (wrapped "parse index") (J.decode_index (J.encode_index i))
