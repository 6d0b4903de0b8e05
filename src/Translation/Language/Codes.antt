-- ===== src/Translation/Language/Codes.antt =====
-- On the three-letter codes: which languages share one.
use rust_bert.Prelude.{
  String, ◌≡◌, refl, sym, ap, ◌∙◌, Option, none, some, List, [], ◌∷◌, arith, if◌then◌else◌,
}
use rust_bert.Translation.Language.{
  Language, get_iso_639_3_code, latvian, achinese, mesopotamian_arabic, taizzi_adeni_arabic,
  tunisian_arabic, afrikaans, south_levantine_arabic, akan, amharic, north_levantine_arabic,
  najdi_arabic, moroccan_arabic, egyptian_arabic, assamese, asturian, awadhi, central_aymara,
  south_azerbaijani, north_azerbaijani, bashkir, bambara, balinese, belarusian, bemba, bengali,
  bhojpuri, banjar, tibetan, bosnian, buginese, bulgarian, catalan, cebuano, czech, chokwe,
  central_kurdish, crimean_tatar, welsh, danish, german, southwestern_dinka, dyula, dzongkha, greek,
  english, esperanto, estonian, basque, ewe, faroese, fijian, finnish, fon, french, friulian,
  nigerian_fulfulde, west_central_oromo, scottish_gaelic, irish, galician, guarani, gujarati,
  haitian, hausa, hebrew, hindi, chhattisgarhi, croatian, hungarian, armenian, igbo, iloko,
  indonesian, icelandic, italian, javanese, japanese, kabyle, kachin, kamba, kannada, kashmiri,
  georgian, kazakh, kabiye, kabuverdianu, halh_mongolian, khmer, kikuyu, kinyarwanda, kirghiz,
  kimbundu, northern_kurdish, central_kanuri, kongo, korean, lao, ligurian, limburgan, lingala,
  lithuanian, lombard, latgalian, luxembourgish, luba_lulua, ganda, luo, lushai, magahi, maithili,
  malayalam, marathi, minangkabau, macedonian, maltese, manipuri, mossi, maori, burmese, dutch,
  norwegian, norwegian_nynorsk, norwegian_bokmal, nepali, pedi, nuer, nyanja, occitan, odia,
  pangasinan, panjabi, papiamento, southern_pashto, iranian_persian, plateau_malagasy, polish,
  portuguese, dari, ayacucho_quechua, romanian, rundi, russian, sango, sanskrit, santali, sicilian,
  shan, sinhala, slovak, slovenian, samoan, shona, sindhi, somali, southern_sotho, spanish,
  sardinian, serbian, swati, sundanese, swedish, swahili, silesian, tamil, tamasheq, tatar, telugu,
  tajik, tagalog, thai, tigrinya, tok_pisin, tswana, tsonga, turkmen, tumbuka, turkish, twi,
  central_atlas_tamazight, uighur, ukrainian, umbundu, urdu, northern_uzbek, venetian, vietnamese,
  waray, wolof, xhosa, eastern_yiddish, yoruba, yue_chinese, chinese, zulu, western_frisian, arabic,
  mongolian, yiddish, pashto, farsi, fulah, uzbek, malagasy, albanian, breton, malay, oriya,
  northern_sotho, luganda, azerbaijani, chinese_mandarin, haitian_creole, central_khmer,
}
use text.Mathlib.Text

-- The languages in the order of the enum.
abbrev languages : List Language
languages =
    latvian ∷ achinese ∷ mesopotamian_arabic ∷ taizzi_adeni_arabic ∷ tunisian_arabic ∷ afrikaans
    ∷ south_levantine_arabic ∷ akan ∷ amharic ∷ north_levantine_arabic ∷ najdi_arabic
    ∷ moroccan_arabic ∷ egyptian_arabic ∷ assamese ∷ asturian ∷ awadhi ∷ central_aymara
    ∷ south_azerbaijani ∷ north_azerbaijani ∷ bashkir ∷ bambara ∷ balinese ∷ belarusian ∷ bemba
    ∷ bengali ∷ bhojpuri ∷ banjar ∷ tibetan ∷ bosnian ∷ buginese ∷ bulgarian ∷ catalan ∷ cebuano
    ∷ czech ∷ chokwe ∷ central_kurdish ∷ crimean_tatar ∷ welsh ∷ danish ∷ german
    ∷ southwestern_dinka ∷ dyula ∷ dzongkha ∷ greek ∷ english ∷ esperanto ∷ estonian ∷ basque ∷ ewe
    ∷ faroese ∷ fijian ∷ finnish ∷ fon ∷ french ∷ friulian ∷ nigerian_fulfulde ∷ west_central_oromo
    ∷ scottish_gaelic ∷ irish ∷ galician ∷ guarani ∷ gujarati ∷ haitian ∷ hausa ∷ hebrew ∷ hindi
    ∷ chhattisgarhi ∷ croatian ∷ hungarian ∷ armenian ∷ igbo ∷ iloko ∷ indonesian ∷ icelandic
    ∷ italian ∷ javanese ∷ japanese ∷ kabyle ∷ kachin ∷ kamba ∷ kannada ∷ kashmiri ∷ georgian
    ∷ kazakh ∷ kabiye ∷ kabuverdianu ∷ halh_mongolian ∷ khmer ∷ kikuyu ∷ kinyarwanda ∷ kirghiz
    ∷ kimbundu ∷ northern_kurdish ∷ central_kanuri ∷ kongo ∷ korean ∷ lao ∷ ligurian ∷ limburgan
    ∷ lingala ∷ lithuanian ∷ lombard ∷ latgalian ∷ luxembourgish ∷ luba_lulua ∷ ganda ∷ luo ∷ lushai
    ∷ magahi ∷ maithili ∷ malayalam ∷ marathi ∷ minangkabau ∷ macedonian ∷ maltese ∷ manipuri
    ∷ mossi ∷ maori ∷ burmese ∷ dutch ∷ norwegian ∷ norwegian_nynorsk ∷ norwegian_bokmal ∷ nepali
    ∷ pedi ∷ nuer ∷ nyanja ∷ occitan ∷ odia ∷ pangasinan ∷ panjabi ∷ papiamento ∷ southern_pashto
    ∷ iranian_persian ∷ plateau_malagasy ∷ polish ∷ portuguese ∷ dari ∷ ayacucho_quechua ∷ romanian
    ∷ rundi ∷ russian ∷ sango ∷ sanskrit ∷ santali ∷ sicilian ∷ shan ∷ sinhala ∷ slovak ∷ slovenian
    ∷ samoan ∷ shona ∷ sindhi ∷ somali ∷ southern_sotho ∷ spanish ∷ sardinian ∷ serbian ∷ swati
    ∷ sundanese ∷ swedish ∷ swahili ∷ silesian ∷ tamil ∷ tamasheq ∷ tatar ∷ telugu ∷ tajik ∷ tagalog
    ∷ thai ∷ tigrinya ∷ tok_pisin ∷ tswana ∷ tsonga ∷ turkmen ∷ tumbuka ∷ turkish ∷ twi
    ∷ central_atlas_tamazight ∷ uighur ∷ ukrainian ∷ umbundu ∷ urdu ∷ northern_uzbek ∷ venetian
    ∷ vietnamese ∷ waray ∷ wolof ∷ xhosa ∷ eastern_yiddish ∷ yoruba ∷ yue_chinese ∷ chinese ∷ zulu
    ∷ western_frisian ∷ arabic ∷ mongolian ∷ yiddish ∷ pashto ∷ farsi ∷ fulah ∷ uzbek ∷ malagasy
    ∷ albanian ∷ breton ∷ malay ∷ oriya ∷ northern_sotho ∷ luganda ∷ azerbaijani ∷ chinese_mandarin
    ∷ haitian_creole ∷ central_khmer ∷ []

-- The first language with the code.
abbrev pub find_code : String → List Language → Option Language
find_code code [] = none
find_code code (l ∷ rest) =
    let later = find_code code rest in
    if text.Mathlib.Text.◌==◌ (get_iso_639_3_code l) code then some l else later

-- One name for the languages that the enum has twice.
abbrev pub canonical : Language → Language
canonical northern_sotho = pedi
canonical luganda = ganda
canonical haitian_creole = haitian
canonical central_khmer = khmer
canonical l = l

find_code-get_iso_639_3_code :
    (l : Language) → find_code (get_iso_639_3_code l) languages ≡ some (canonical l)
unfolding get_iso_639_3_code
find_code-get_iso_639_3_code latvian = refl
find_code-get_iso_639_3_code achinese = refl
find_code-get_iso_639_3_code mesopotamian_arabic = refl
find_code-get_iso_639_3_code taizzi_adeni_arabic = refl
find_code-get_iso_639_3_code tunisian_arabic = refl
find_code-get_iso_639_3_code afrikaans = refl
find_code-get_iso_639_3_code south_levantine_arabic = refl
find_code-get_iso_639_3_code akan = refl
find_code-get_iso_639_3_code amharic = refl
find_code-get_iso_639_3_code north_levantine_arabic = refl
find_code-get_iso_639_3_code najdi_arabic = refl
find_code-get_iso_639_3_code moroccan_arabic = refl
find_code-get_iso_639_3_code egyptian_arabic = refl
find_code-get_iso_639_3_code assamese = refl
find_code-get_iso_639_3_code asturian = refl
find_code-get_iso_639_3_code awadhi = refl
find_code-get_iso_639_3_code central_aymara = refl
find_code-get_iso_639_3_code south_azerbaijani = refl
find_code-get_iso_639_3_code north_azerbaijani = refl
find_code-get_iso_639_3_code bashkir = refl
find_code-get_iso_639_3_code bambara = refl
find_code-get_iso_639_3_code balinese = refl
find_code-get_iso_639_3_code belarusian = refl
find_code-get_iso_639_3_code bemba = refl
find_code-get_iso_639_3_code bengali = refl
find_code-get_iso_639_3_code bhojpuri = refl
find_code-get_iso_639_3_code banjar = refl
find_code-get_iso_639_3_code tibetan = refl
find_code-get_iso_639_3_code bosnian = refl
find_code-get_iso_639_3_code buginese = refl
find_code-get_iso_639_3_code bulgarian = refl
find_code-get_iso_639_3_code catalan = refl
find_code-get_iso_639_3_code cebuano = refl
find_code-get_iso_639_3_code czech = refl
find_code-get_iso_639_3_code chokwe = refl
find_code-get_iso_639_3_code central_kurdish = refl
find_code-get_iso_639_3_code crimean_tatar = refl
find_code-get_iso_639_3_code welsh = refl
find_code-get_iso_639_3_code danish = refl
find_code-get_iso_639_3_code german = refl
find_code-get_iso_639_3_code southwestern_dinka = refl
find_code-get_iso_639_3_code dyula = refl
find_code-get_iso_639_3_code dzongkha = refl
find_code-get_iso_639_3_code greek = refl
find_code-get_iso_639_3_code english = refl
find_code-get_iso_639_3_code esperanto = refl
find_code-get_iso_639_3_code estonian = refl
find_code-get_iso_639_3_code basque = refl
find_code-get_iso_639_3_code ewe = refl
find_code-get_iso_639_3_code faroese = refl
find_code-get_iso_639_3_code fijian = refl
find_code-get_iso_639_3_code finnish = refl
find_code-get_iso_639_3_code fon = refl
find_code-get_iso_639_3_code french = refl
find_code-get_iso_639_3_code friulian = refl
find_code-get_iso_639_3_code nigerian_fulfulde = refl
find_code-get_iso_639_3_code west_central_oromo = refl
find_code-get_iso_639_3_code scottish_gaelic = refl
find_code-get_iso_639_3_code irish = refl
find_code-get_iso_639_3_code galician = refl
find_code-get_iso_639_3_code guarani = refl
find_code-get_iso_639_3_code gujarati = refl
find_code-get_iso_639_3_code haitian = refl
find_code-get_iso_639_3_code hausa = refl
find_code-get_iso_639_3_code hebrew = refl
find_code-get_iso_639_3_code hindi = refl
find_code-get_iso_639_3_code chhattisgarhi = refl
find_code-get_iso_639_3_code croatian = refl
find_code-get_iso_639_3_code hungarian = refl
find_code-get_iso_639_3_code armenian = refl
find_code-get_iso_639_3_code igbo = refl
find_code-get_iso_639_3_code iloko = refl
find_code-get_iso_639_3_code indonesian = refl
find_code-get_iso_639_3_code icelandic = refl
find_code-get_iso_639_3_code italian = refl
find_code-get_iso_639_3_code javanese = refl
find_code-get_iso_639_3_code japanese = refl
find_code-get_iso_639_3_code kabyle = refl
find_code-get_iso_639_3_code kachin = refl
find_code-get_iso_639_3_code kamba = refl
find_code-get_iso_639_3_code kannada = refl
find_code-get_iso_639_3_code kashmiri = refl
find_code-get_iso_639_3_code georgian = refl
find_code-get_iso_639_3_code kazakh = refl
find_code-get_iso_639_3_code kabiye = refl
find_code-get_iso_639_3_code kabuverdianu = refl
find_code-get_iso_639_3_code halh_mongolian = refl
find_code-get_iso_639_3_code khmer = refl
find_code-get_iso_639_3_code kikuyu = refl
find_code-get_iso_639_3_code kinyarwanda = refl
find_code-get_iso_639_3_code kirghiz = refl
find_code-get_iso_639_3_code kimbundu = refl
find_code-get_iso_639_3_code northern_kurdish = refl
find_code-get_iso_639_3_code central_kanuri = refl
find_code-get_iso_639_3_code kongo = refl
find_code-get_iso_639_3_code korean = refl
find_code-get_iso_639_3_code lao = refl
find_code-get_iso_639_3_code ligurian = refl
find_code-get_iso_639_3_code limburgan = refl
find_code-get_iso_639_3_code lingala = refl
find_code-get_iso_639_3_code lithuanian = refl
find_code-get_iso_639_3_code lombard = refl
find_code-get_iso_639_3_code latgalian = refl
find_code-get_iso_639_3_code luxembourgish = refl
find_code-get_iso_639_3_code luba_lulua = refl
find_code-get_iso_639_3_code ganda = refl
find_code-get_iso_639_3_code luo = refl
find_code-get_iso_639_3_code lushai = refl
find_code-get_iso_639_3_code magahi = refl
find_code-get_iso_639_3_code maithili = refl
find_code-get_iso_639_3_code malayalam = refl
find_code-get_iso_639_3_code marathi = refl
find_code-get_iso_639_3_code minangkabau = refl
find_code-get_iso_639_3_code macedonian = refl
find_code-get_iso_639_3_code maltese = refl
find_code-get_iso_639_3_code manipuri = refl
find_code-get_iso_639_3_code mossi = refl
find_code-get_iso_639_3_code maori = refl
find_code-get_iso_639_3_code burmese = refl
find_code-get_iso_639_3_code dutch = refl
find_code-get_iso_639_3_code norwegian = refl
find_code-get_iso_639_3_code norwegian_nynorsk = refl
find_code-get_iso_639_3_code norwegian_bokmal = refl
find_code-get_iso_639_3_code nepali = refl
find_code-get_iso_639_3_code pedi = refl
find_code-get_iso_639_3_code nuer = refl
find_code-get_iso_639_3_code nyanja = refl
find_code-get_iso_639_3_code occitan = refl
find_code-get_iso_639_3_code odia = refl
find_code-get_iso_639_3_code pangasinan = refl
find_code-get_iso_639_3_code panjabi = refl
find_code-get_iso_639_3_code papiamento = refl
find_code-get_iso_639_3_code southern_pashto = refl
find_code-get_iso_639_3_code iranian_persian = refl
find_code-get_iso_639_3_code plateau_malagasy = refl
find_code-get_iso_639_3_code polish = refl
find_code-get_iso_639_3_code portuguese = refl
find_code-get_iso_639_3_code dari = refl
find_code-get_iso_639_3_code ayacucho_quechua = refl
find_code-get_iso_639_3_code romanian = refl
find_code-get_iso_639_3_code rundi = refl
find_code-get_iso_639_3_code russian = refl
find_code-get_iso_639_3_code sango = refl
find_code-get_iso_639_3_code sanskrit = refl
find_code-get_iso_639_3_code santali = refl
find_code-get_iso_639_3_code sicilian = refl
find_code-get_iso_639_3_code shan = refl
find_code-get_iso_639_3_code sinhala = refl
find_code-get_iso_639_3_code slovak = refl
find_code-get_iso_639_3_code slovenian = refl
find_code-get_iso_639_3_code samoan = refl
find_code-get_iso_639_3_code shona = refl
find_code-get_iso_639_3_code sindhi = refl
find_code-get_iso_639_3_code somali = refl
find_code-get_iso_639_3_code southern_sotho = refl
find_code-get_iso_639_3_code spanish = refl
find_code-get_iso_639_3_code sardinian = refl
find_code-get_iso_639_3_code serbian = refl
find_code-get_iso_639_3_code swati = refl
find_code-get_iso_639_3_code sundanese = refl
find_code-get_iso_639_3_code swedish = refl
find_code-get_iso_639_3_code swahili = refl
find_code-get_iso_639_3_code silesian = refl
find_code-get_iso_639_3_code tamil = refl
find_code-get_iso_639_3_code tamasheq = refl
find_code-get_iso_639_3_code tatar = refl
find_code-get_iso_639_3_code telugu = refl
find_code-get_iso_639_3_code tajik = refl
find_code-get_iso_639_3_code tagalog = refl
find_code-get_iso_639_3_code thai = refl
find_code-get_iso_639_3_code tigrinya = refl
find_code-get_iso_639_3_code tok_pisin = refl
find_code-get_iso_639_3_code tswana = refl
find_code-get_iso_639_3_code tsonga = refl
find_code-get_iso_639_3_code turkmen = refl
find_code-get_iso_639_3_code tumbuka = refl
find_code-get_iso_639_3_code turkish = refl
find_code-get_iso_639_3_code twi = refl
find_code-get_iso_639_3_code central_atlas_tamazight = refl
find_code-get_iso_639_3_code uighur = refl
find_code-get_iso_639_3_code ukrainian = refl
find_code-get_iso_639_3_code umbundu = refl
find_code-get_iso_639_3_code urdu = refl
find_code-get_iso_639_3_code northern_uzbek = refl
find_code-get_iso_639_3_code venetian = refl
find_code-get_iso_639_3_code vietnamese = refl
find_code-get_iso_639_3_code waray = refl
find_code-get_iso_639_3_code wolof = refl
find_code-get_iso_639_3_code xhosa = refl
find_code-get_iso_639_3_code eastern_yiddish = refl
find_code-get_iso_639_3_code yoruba = refl
find_code-get_iso_639_3_code yue_chinese = refl
find_code-get_iso_639_3_code chinese = refl
find_code-get_iso_639_3_code zulu = refl
find_code-get_iso_639_3_code western_frisian = refl
find_code-get_iso_639_3_code arabic = refl
find_code-get_iso_639_3_code mongolian = refl
find_code-get_iso_639_3_code yiddish = refl
find_code-get_iso_639_3_code pashto = refl
find_code-get_iso_639_3_code farsi = refl
find_code-get_iso_639_3_code fulah = refl
find_code-get_iso_639_3_code uzbek = refl
find_code-get_iso_639_3_code malagasy = refl
find_code-get_iso_639_3_code albanian = refl
find_code-get_iso_639_3_code breton = refl
find_code-get_iso_639_3_code malay = refl
find_code-get_iso_639_3_code oriya = refl
find_code-get_iso_639_3_code northern_sotho = refl
find_code-get_iso_639_3_code luganda = refl
find_code-get_iso_639_3_code azerbaijani = refl
find_code-get_iso_639_3_code chinese_mandarin = refl
find_code-get_iso_639_3_code haitian_creole = refl
find_code-get_iso_639_3_code central_khmer = refl

some_injective : {a b : Language} → some a ≡ some b → a ≡ b
some_injective e = ground (arith, e)

-- Two languages have the same three-letter code only if they are the same, or two names of one of four
-- languages: Khmer, Ganda, Northern Sotho and Haitian Creole.
pub get_iso_639_3_code_lem :
    (l m : Language) → get_iso_639_3_code l ≡ get_iso_639_3_code m → canonical l ≡ canonical m
get_iso_639_3_code_lem l m e = some_injective (
    sym (find_code-get_iso_639_3_code l)
    ∙ ap (λ code. find_code code languages) e
    ∙ find_code-get_iso_639_3_code m)
