-- ===== src/Heif/Cache.antt =====
-- `getMeta` and `setMetaErr` of media/heif/heif.go: what a `File` keeps from one call to the next.
use go.Common.{◌≡◌, arith, none}
use go.Heif.File.{
  HeifErr, Outcome, done, fail, BoxMeta, File, set_meta_err, load_meta, get_with, get_meta,
}

kept :
    (o o' : Outcome BoxMeta) (f f' : File) (m : BoxMeta)
    → get_with o f ≡ (done m, f')
    → get_with o' f' ≡ (done m, f')
unfolding get_with
kept o o' f f' m e = ground (arith, e)

forgotten :
    (o : Outcome BoxMeta) (f : File) (e : HeifErr)
    → f.meta_err ≡ none
    → (get_with o f).0 ≡ fail e
    → ((get_with o f).1 ≡ f) × (o ≡ fail e)
unfolding get_with set_meta_err
forgotten o f e h g = ground (arith, h, g)

-- A success of `getMeta` is kept: the next call gives the same metadata and changes nothing.
pub get_meta-get_meta :
    (f f' : File) (m : BoxMeta) → get_meta f ≡ (done m, f') → get_meta f' ≡ (done m, f')
unfolding get_meta
get_meta-get_meta f f' m e = kept (load_meta f.ra) (load_meta f'.ra) f f' m e

-- An error of `getMeta` is not kept: if none was kept before the call, the file is as it was, and the
-- error is the one of reading the metadata.
get_meta-retries :
    (f : File) (e : HeifErr)
    → f.meta_err ≡ none
    → (get_meta f).0 ≡ fail e
    → ((get_meta f).1 ≡ f) × (load_meta f.ra ≡ fail e)
unfolding get_meta
get_meta-retries f e h g = forgotten (load_meta f.ra) f e h g
