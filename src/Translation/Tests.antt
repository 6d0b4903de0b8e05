-- ===== src/Translation/Tests.antt =====
-- The theorem on the codes at two names of a language, and two languages with one short code.
use rust_bert.Prelude.{◌≡◌, refl}
use rust_bert.Translation.Language.{
  get_iso_639_3_code, get_iso_639_1_code, khmer, central_khmer, finnish, fijian,
}
use rust_bert.Translation.Language.Codes.{canonical, get_iso_639_3_code_lem}

get_iso_639_3_code_lem_example : canonical khmer ≡ canonical central_khmer
unfolding get_iso_639_3_code
get_iso_639_3_code_lem_example = get_iso_639_3_code_lem khmer central_khmer refl

same_short_code : get_iso_639_1_code finnish ≡ get_iso_639_1_code fijian
unfolding get_iso_639_1_code
same_short_code = refl
