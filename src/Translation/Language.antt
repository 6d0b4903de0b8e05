-- ===== src/Translation/Language.antt =====
-- pipelines/translation/translation_pipeline.rs: the enum `Language` and its ISO 639 codes.
pub mod Codes
use rust_bert.Prelude.{String, Option, none, some}

pub data Language : Type 0 where
  latvian : Language
  achinese : Language
  mesopotamian_arabic : Language
  taizzi_adeni_arabic : Language
  tunisian_arabic : Language
  afrikaans : Language
  south_levantine_arabic : Language
  akan : Language
  amharic : Language
  north_levantine_arabic : Language
  najdi_arabic : Language
  moroccan_arabic : Language
  egyptian_arabic : Language
  assamese : Language
  asturian : Language
  awadhi : Language
  central_aymara : Language
  south_azerbaijani : Language
  north_azerbaijani : Language
  bashkir : Language
  bambara : Language
  balinese : Language
  belarusian : Language
  bemba : Language
  bengali : Language
  bhojpuri : Language
  banjar : Language
  tibetan : Language
  bosnian : Language
  buginese : Language
  bulgarian : Language
  catalan : Language
  cebuano : Language
  czech : Language
  chokwe : Language
  central_kurdish : Language
  crimean_tatar : Language
  welsh : Language
  danish : Language
  german : Language
  southwestern_dinka : Language
  dyula : Language
  dzongkha : Language
  greek : Language
  english : Language
  esperanto : Language
  estonian : Language
  basque : Language
  ewe : Language
  faroese : Language
  fijian : Language
  finnish : Language
  fon : Language
  french : Language
  friulian : Language
  nigerian_fulfulde : Language
  west_central_oromo : Language
  scottish_gaelic : Language
  irish : Language
  galician : Language
  guarani : Language
  gujarati : Language
  haitian : Language
  hausa : Language
  hebrew : Language
  hindi : Language
  chhattisgarhi : Language
  croatian : Language
  hungarian : Language
  armenian : Language
  igbo : Language
  iloko : Language
  indonesian : Language
  icelandic : Language
  italian : Language
  javanese : Language
  japanese : Language
  kabyle : Language
  kachin : Language
  kamba : Language
  kannada : Language
  kashmiri : Language
  georgian : Language
  kazakh : Language
  kabiye : Language
  kabuverdianu : Language
  halh_mongolian : Language
  khmer : Language
  kikuyu : Language
  kinyarwanda : Language
  kirghiz : Language
  kimbundu : Language
  northern_kurdish : Language
  central_kanuri : Language
  kongo : Language
  korean : Language
  lao : Language
  ligurian : Language
  limburgan : Language
  lingala : Language
  lithuanian : Language
  lombard : Language
  latgalian : Language
  luxembourgish : Language
  luba_lulua : Language
  ganda : Language
  luo : Language
  lushai : Language
  magahi : Language
  maithili : Language
  malayalam : Language
  marathi : Language
  minangkabau : Language
  macedonian : Language
  maltese : Language
  manipuri : Language
  mossi : Language
  maori : Language
  burmese : Language
  dutch : Language
  norwegian : Language
  norwegian_nynorsk : Language
  norwegian_bokmal : Language
  nepali : Language
  pedi : Language
  nuer : Language
  nyanja : Language
  occitan : Language
  odia : Language
  pangasinan : Language
  panjabi : Language
  papiamento : Language
  southern_pashto : Language
  iranian_persian : Language
  plateau_malagasy : Language
  polish : Language
  portuguese : Language
  dari : Language
  ayacucho_quechua : Language
  romanian : Language
  rundi : Language
  russian : Language
  sango : Language
  sanskrit : Language
  santali : Language
  sicilian : Language
  shan : Language
  sinhala : Language
  slovak : Language
  slovenian : Language
  samoan : Language
  shona : Language
  sindhi : Language
  somali : Language
  southern_sotho : Language
  spanish : Language
  sardinian : Language
  serbian : Language
  swati : Language
  sundanese : Language
  swedish : Language
  swahili : Language
  silesian : Language
  tamil : Language
  tamasheq : Language
  tatar : Language
  telugu : Language
  tajik : Language
  tagalog : Language
  thai : Language
  tigrinya : Language
  tok_pisin : Language
  tswana : Language
  tsonga : Language
  turkmen : Language
  tumbuka : Language
  turkish : Language
  twi : Language
  central_atlas_tamazight : Language
  uighur : Language
  ukrainian : Language
  umbundu : Language
  urdu : Language
  northern_uzbek : Language
  venetian : Language
  vietnamese : Language
  waray : Language
  wolof : Language
  xhosa : Language
  eastern_yiddish : Language
  yoruba : Language
  yue_chinese : Language
  chinese : Language
  zulu : Language
  western_frisian : Language
  arabic : Language
  mongolian : Language
  yiddish : Language
  pashto : Language
  farsi : Language
  fulah : Language
  uzbek : Language
  malagasy : Language
  albanian : Language
  breton : Language
  malay : Language
  oriya : Language
  northern_sotho : Language
  luganda : Language
  azerbaijani : Language
  chinese_mandarin : Language
  haitian_creole : Language
  central_khmer : Language

unfoldable pub get_iso_639_3_code : Language → String
get_iso_639_3_code latvian = "lav"
get_iso_639_3_code achinese = "ace"
get_iso_639_3_code mesopotamian_arabic = "acm"
get_iso_639_3_code taizzi_adeni_arabic = "acq"
get_iso_639_3_code tunisian_arabic = "aeb"
get_iso_639_3_code afrikaans = "afr"
get_iso_639_3_code south_levantine_arabic = "ajp"
get_iso_639_3_code akan = "aka"
get_iso_639_3_code amharic = "amh"
get_iso_639_3_code north_levantine_arabic = "apc"
get_iso_639_3_code najdi_arabic = "ars"
get_iso_639_3_code moroccan_arabic = "ary"
get_iso_639_3_code egyptian_arabic = "arz"
get_iso_639_3_code assamese = "asm"
get_iso_639_3_code asturian = "ast"
get_iso_639_3_code awadhi = "awa"
get_iso_639_3_code central_aymara = "ayr"
get_iso_639_3_code south_azerbaijani = "azb"
get_iso_639_3_code north_azerbaijani = "azj"
get_iso_639_3_code bashkir = "bak"
get_iso_639_3_code bambara = "bam"
get_iso_639_3_code balinese = "ban"
get_iso_639_3_code belarusian = "bel"
get_iso_639_3_code bemba = "bem"
get_iso_639_3_code bengali = "ben"
get_iso_639_3_code bhojpuri = "bho"
get_iso_639_3_code banjar = "bjn"
get_iso_639_3_code tibetan = "bod"
get_iso_639_3_code bosnian = "bos"
get_iso_639_3_code buginese = "bug"
get_iso_639_3_code bulgarian = "bul"
get_iso_639_3_code catalan = "cat"
get_iso_639_3_code cebuano = "ceb"
get_iso_639_3_code czech = "ces"
get_iso_639_3_code chokwe = "cjk"
get_iso_639_3_code central_kurdish = "ckb"
get_iso_639_3_code crimean_tatar = "crh"
get_iso_639_3_code welsh = "cym"
get_iso_639_3_code danish = "dan"
get_iso_639_3_code german = "deu"
get_iso_639_3_code southwestern_dinka = "dik"
get_iso_639_3_code dyula = "dyu"
get_iso_639_3_code dzongkha = "dzo"
get_iso_639_3_code greek = "ell"
get_iso_639_3_code english = "eng"
get_iso_639_3_code esperanto = "epo"
get_iso_639_3_code estonian = "est"
get_iso_639_3_code basque = "eus"
get_iso_639_3_code ewe = "ewe"
get_iso_639_3_code faroese = "fao"
get_iso_639_3_code fijian = "fij"
get_iso_639_3_code finnish = "fin"
get_iso_639_3_code fon = "fon"
get_iso_639_3_code french = "fra"
get_iso_639_3_code friulian = "fur"
get_iso_639_3_code nigerian_fulfulde = "fuv"
get_iso_639_3_code west_central_oromo = "gaz"
get_iso_639_3_code scottish_gaelic = "gla"
get_iso_639_3_code irish = "gle"
get_iso_639_3_code galician = "glg"
get_iso_639_3_code guarani = "grn"
get_iso_639_3_code gujarati = "guj"
get_iso_639_3_code haitian = "hat"
get_iso_639_3_code hausa = "hau"
get_iso_639_3_code hebrew = "heb"
get_iso_639_3_code hindi = "hin"
get_iso_639_3_code chhattisgarhi = "hne"
get_iso_639_3_code croatian = "hrv"
get_iso_639_3_code hungarian = "hun"
get_iso_639_3_code armenian = "hye"
get_iso_639_3_code igbo = "ibo"
get_iso_639_3_code iloko = "ilo"
get_iso_639_3_code indonesian = "ind"
get_iso_639_3_code icelandic = "isl"
get_iso_639_3_code italian = "ita"
get_iso_639_3_code javanese = "jav"
get_iso_639_3_code japanese = "jpn"
get_iso_639_3_code kabyle = "kab"
get_iso_639_3_code kachin = "kac"
get_iso_639_3_code kamba = "kam"
get_iso_639_3_code kannada = "kan"
get_iso_639_3_code kashmiri = "kas"
get_iso_639_3_code georgian = "kat"
get_iso_639_3_code kazakh = "kaz"
get_iso_639_3_code kabiye = "kbp"
get_iso_639_3_code kabuverdianu = "kea"
get_iso_639_3_code halh_mongolian = "khk"
get_iso_639_3_code khmer = "khm"
get_iso_639_3_code kikuyu = "kik"
get_iso_639_3_code kinyarwanda = "kin"
get_iso_639_3_code kirghiz = "kir"
get_iso_639_3_code kimbundu = "kmb"
get_iso_639_3_code northern_kurdish = "kmr"
get_iso_639_3_code central_kanuri = "knc"
get_iso_639_3_code kongo = "kon"
get_iso_639_3_code korean = "kor"
get_iso_639_3_code lao = "lao"
get_iso_639_3_code ligurian = "lij"
get_iso_639_3_code limburgan = "lim"
get_iso_639_3_code lingala = "lin"
get_iso_639_3_code lithuanian = "lit"
get_iso_639_3_code lombard = "lmo"
get_iso_639_3_code latgalian = "ltg"
get_iso_639_3_code luxembourgish = "ltz"
get_iso_639_3_code luba_lulua = "lua"
get_iso_639_3_code ganda = "lug"
get_iso_639_3_code luo = "luo"
get_iso_639_3_code lushai = "lus"
get_iso_639_3_code magahi = "mag"
get_iso_639_3_code maithili = "mai"
get_iso_639_3_code malayalam = "mal"
get_iso_639_3_code marathi = "mar"
get_iso_639_3_code minangkabau = "min"
get_iso_639_3_code macedonian = "mkd"
get_iso_639_3_code maltese = "mlt"
get_iso_639_3_code manipuri = "mni"
get_iso_639_3_code mossi = "mos"
get_iso_639_3_code maori = "mri"
get_iso_639_3_code burmese = "mya"
get_iso_639_3_code dutch = "nld"
get_iso_639_3_code norwegian = "nor"
get_iso_639_3_code norwegian_nynorsk = "nno"
get_iso_639_3_code norwegian_bokmal = "nob"
get_iso_639_3_code nepali = "nep"
get_iso_639_3_code pedi = "nso"
get_iso_639_3_code nuer = "nus"
get_iso_639_3_code nyanja = "nya"
get_iso_639_3_code occitan = "oci"
get_iso_639_3_code odia = "ory"
get_iso_639_3_code pangasinan = "pag"
get_iso_639_3_code panjabi = "pan"
get_iso_639_3_code papiamento = "pap"
get_iso_639_3_code southern_pashto = "pbt"
get_iso_639_3_code iranian_persian = "pes"
get_iso_639_3_code plateau_malagasy = "plt"
get_iso_639_3_code polish = "pol"
get_iso_639_3_code portuguese = "por"
get_iso_639_3_code dari = "prs"
get_iso_639_3_code ayacucho_quechua = "quy"
get_iso_639_3_code romanian = "ron"
get_iso_639_3_code rundi = "run"
get_iso_639_3_code russian = "rus"
get_iso_639_3_code sango = "sag"
get_iso_639_3_code sanskrit = "san"
get_iso_639_3_code santali = "sat"
get_iso_639_3_code sicilian = "scn"
get_iso_639_3_code shan = "shn"
get_iso_639_3_code sinhala = "sin"
get_iso_639_3_code slovak = "slk"
get_iso_639_3_code slovenian = "slv"
get_iso_639_3_code samoan = "smo"
get_iso_639_3_code shona = "sna"
get_iso_639_3_code sindhi = "snd"
get_iso_639_3_code somali = "som"
get_iso_639_3_code southern_sotho = "sot"
get_iso_639_3_code spanish = "spa"
get_iso_639_3_code sardinian = "srd"
get_iso_639_3_code serbian = "srp"
get_iso_639_3_code swati = "ssw"
get_iso_639_3_code sundanese = "sun"
get_iso_639_3_code swedish = "swe"
get_iso_639_3_code swahili = "swa"
get_iso_639_3_code silesian = "szl"
get_iso_639_3_code tamil = "tam"
get_iso_639_3_code tamasheq = "taq"
get_iso_639_3_code tatar = "tat"
get_iso_639_3_code telugu = "tel"
get_iso_639_3_code tajik = "tgk"
get_iso_639_3_code tagalog = "tgl"
get_iso_639_3_code thai = "tha"
get_iso_639_3_code tigrinya = "tir"
get_iso_639_3_code tok_pisin = "tpi"
get_iso_639_3_code tswana = "tsn"
get_iso_639_3_code tsonga = "tso"
get_iso_639_3_code turkmen = "tuk"
get_iso_639_3_code tumbuka = "tum"
get_iso_639_3_code turkish = "tur"
get_iso_639_3_code twi = "twi"
get_iso_639_3_code central_atlas_tamazight = "tzm"
get_iso_639_3_code uighur = "uig"
get_iso_639_3_code ukrainian = "ukr"
get_iso_639_3_code umbundu = "umb"
get_iso_639_3_code urdu = "urd"
get_iso_639_3_code northern_uzbek = "uzn"
get_iso_639_3_code venetian = "vec"
get_iso_639_3_code vietnamese = "vie"
get_iso_639_3_code waray = "war"
get_iso_639_3_code wolof = "wol"
get_iso_639_3_code xhosa = "xho"
get_iso_639_3_code eastern_yiddish = "ydd"
get_iso_639_3_code yoruba = "yor"
get_iso_639_3_code yue_chinese = "yue"
get_iso_639_3_code chinese = "zho"
get_iso_639_3_code zulu = "zul"
get_iso_639_3_code western_frisian = "fry"
get_iso_639_3_code arabic = "ara"
get_iso_639_3_code mongolian = "mon"
get_iso_639_3_code yiddish = "yid"
get_iso_639_3_code pashto = "pus"
get_iso_639_3_code farsi = "fas"
get_iso_639_3_code fulah = "ful"
get_iso_639_3_code uzbek = "uzb"
get_iso_639_3_code malagasy = "mlg"
get_iso_639_3_code albanian = "sqi"
get_iso_639_3_code breton = "bre"
get_iso_639_3_code malay = "msa"
get_iso_639_3_code oriya = "ori"
get_iso_639_3_code northern_sotho = "nso"
get_iso_639_3_code luganda = "lug"
get_iso_639_3_code azerbaijani = "aze"
get_iso_639_3_code chinese_mandarin = "cmn"
get_iso_639_3_code haitian_creole = "hat"
get_iso_639_3_code central_khmer = "khm"

-- `None` for the languages of the long alternative of the match.
unfoldable pub get_iso_639_1_code : Language → Option String
get_iso_639_1_code latvian = some "lv"
get_iso_639_1_code achinese = none
get_iso_639_1_code mesopotamian_arabic = none
get_iso_639_1_code taizzi_adeni_arabic = none
get_iso_639_1_code tunisian_arabic = none
get_iso_639_1_code afrikaans = some "af"
get_iso_639_1_code south_levantine_arabic = none
get_iso_639_1_code akan = some "ak"
get_iso_639_1_code amharic = some "am"
get_iso_639_1_code north_levantine_arabic = none
get_iso_639_1_code najdi_arabic = some "ar"
get_iso_639_1_code moroccan_arabic = none
get_iso_639_1_code egyptian_arabic = none
get_iso_639_1_code assamese = some "as"
get_iso_639_1_code asturian = some "ast"
get_iso_639_1_code awadhi = none
get_iso_639_1_code central_aymara = none
get_iso_639_1_code south_azerbaijani = none
get_iso_639_1_code north_azerbaijani = some "az"
get_iso_639_1_code bashkir = some "ba"
get_iso_639_1_code bambara = some "bm"
get_iso_639_1_code balinese = none
get_iso_639_1_code belarusian = some "be"
get_iso_639_1_code bemba = none
get_iso_639_1_code bengali = some "bn"
get_iso_639_1_code bhojpuri = none
get_iso_639_1_code banjar = none
get_iso_639_1_code tibetan = some "bo"
get_iso_639_1_code bosnian = some "bs"
get_iso_639_1_code buginese = none
get_iso_639_1_code bulgarian = some "bg"
get_iso_639_1_code catalan = some "ca"
get_iso_639_1_code cebuano = some "ceb"
get_iso_639_1_code czech = some "cs"
get_iso_639_1_code chokwe = none
get_iso_639_1_code central_kurdish = none
get_iso_639_1_code crimean_tatar = none
get_iso_639_1_code welsh = some "cy"
get_iso_639_1_code danish = some "da"
get_iso_639_1_code german = some "de"
get_iso_639_1_code southwestern_dinka = none
get_iso_639_1_code dyula = none
get_iso_639_1_code dzongkha = some "dz"
get_iso_639_1_code greek = some "el"
get_iso_639_1_code english = some "en"
get_iso_639_1_code esperanto = some "eo"
get_iso_639_1_code estonian = some "et"
get_iso_639_1_code basque = some "eu"
get_iso_639_1_code ewe = some "ee"
get_iso_639_1_code faroese = some "fo"
get_iso_639_1_code fijian = some "fi"
get_iso_639_1_code finnish = some "fi"
get_iso_639_1_code fon = none
get_iso_639_1_code french = some "fr"
get_iso_639_1_code friulian = none
get_iso_639_1_code nigerian_fulfulde = none
get_iso_639_1_code west_central_oromo = none
get_iso_639_1_code scottish_gaelic = some "gd"
get_iso_639_1_code irish = some "ga"
get_iso_639_1_code galician = some "gl"
get_iso_639_1_code guarani = some "gn"
get_iso_639_1_code gujarati = some "gu"
get_iso_639_1_code haitian = some "ht"
get_iso_639_1_code hausa = some "ha"
get_iso_639_1_code hebrew = some "he"
get_iso_639_1_code hindi = some "hi"
get_iso_639_1_code chhattisgarhi = none
get_iso_639_1_code croatian = some "hr"
get_iso_639_1_code hungarian = some "hu"
get_iso_639_1_code armenian = some "hy"
get_iso_639_1_code igbo = some "ig"
get_iso_639_1_code iloko = some "ilo"
get_iso_639_1_code indonesian = some "id"
get_iso_639_1_code icelandic = some "is"
get_iso_639_1_code italian = some "it"
get_iso_639_1_code javanese = some "jv"
get_iso_639_1_code japanese = some "ja"
get_iso_639_1_code kabyle = none
get_iso_639_1_code kachin = none
get_iso_639_1_code kamba = none
get_iso_639_1_code kannada = some "kn"
get_iso_639_1_code kashmiri = some "ks"
get_iso_639_1_code georgian = some "ka"
get_iso_639_1_code kazakh = some "kk"
get_iso_639_1_code kabiye = none
get_iso_639_1_code kabuverdianu = none
get_iso_639_1_code halh_mongolian = none
get_iso_639_1_code khmer = some "km"
get_iso_639_1_code kikuyu = some "ki"
get_iso_639_1_code kinyarwanda = some "rw"
get_iso_639_1_code kirghiz = some "ky"
get_iso_639_1_code kimbundu = none
get_iso_639_1_code northern_kurdish = none
get_iso_639_1_code central_kanuri = none
get_iso_639_1_code kongo = some "kg"
get_iso_639_1_code korean = some "ko"
get_iso_639_1_code lao = some "lo"
get_iso_639_1_code ligurian = none
get_iso_639_1_code limburgan = some "li"
get_iso_639_1_code lingala = some "ln"
get_iso_639_1_code lithuanian = some "lt"
get_iso_639_1_code lombard = none
get_iso_639_1_code latgalian = none
get_iso_639_1_code luxembourgish = some "lb"
get_iso_639_1_code luba_lulua = none
get_iso_639_1_code ganda = some "lg"
get_iso_639_1_code luo = none
get_iso_639_1_code lushai = none
get_iso_639_1_code magahi = none
get_iso_639_1_code maithili = none
get_iso_639_1_code malayalam = some "ml"
get_iso_639_1_code marathi = some "mr"
get_iso_639_1_code minangkabau = none
get_iso_639_1_code macedonian = some "mk"
get_iso_639_1_code maltese = some "mt"
get_iso_639_1_code manipuri = none
get_iso_639_1_code mossi = none
get_iso_639_1_code maori = some "mi"
get_iso_639_1_code burmese = some "my"
get_iso_639_1_code dutch = some "nl"
get_iso_639_1_code norwegian = some "no"
get_iso_639_1_code norwegian_nynorsk = some "nn"
get_iso_639_1_code norwegian_bokmal = some "nb"
get_iso_639_1_code nepali = some "ne"
get_iso_639_1_code pedi = none
get_iso_639_1_code nuer = none
get_iso_639_1_code nyanja = some "ny"
get_iso_639_1_code occitan = some "oc"
get_iso_639_1_code odia = none
get_iso_639_1_code pangasinan = none
get_iso_639_1_code panjabi = some "pa"
get_iso_639_1_code papiamento = none
get_iso_639_1_code southern_pashto = some "ps"
get_iso_639_1_code iranian_persian = none
get_iso_639_1_code plateau_malagasy = none
get_iso_639_1_code polish = some "pl"
get_iso_639_1_code portuguese = some "pt"
get_iso_639_1_code dari = none
get_iso_639_1_code ayacucho_quechua = none
get_iso_639_1_code romanian = some "ro"
get_iso_639_1_code rundi = some "rn"
get_iso_639_1_code russian = some "ru"
get_iso_639_1_code sango = some "sg"
get_iso_639_1_code sanskrit = none
get_iso_639_1_code santali = none
get_iso_639_1_code sicilian = none
get_iso_639_1_code shan = none
get_iso_639_1_code sinhala = some "si"
get_iso_639_1_code slovak = some "sk"
get_iso_639_1_code slovenian = some "sl"
get_iso_639_1_code samoan = some "sm"
get_iso_639_1_code shona = some "sn"
get_iso_639_1_code sindhi = some "sd"
get_iso_639_1_code somali = some "so"
get_iso_639_1_code southern_sotho = some "st"
get_iso_639_1_code spanish = some "es"
get_iso_639_1_code sardinian = some "sc"
get_iso_639_1_code serbian = some "sr"
get_iso_639_1_code swati = some "ss"
get_iso_639_1_code sundanese = some "su"
get_iso_639_1_code swedish = some "sv"
get_iso_639_1_code swahili = some "sw"
get_iso_639_1_code silesian = none
get_iso_639_1_code tamil = some "ta"
get_iso_639_1_code tamasheq = none
get_iso_639_1_code tatar = some "tt"
get_iso_639_1_code telugu = some "te"
get_iso_639_1_code tajik = some "tg"
get_iso_639_1_code tagalog = some "tl"
get_iso_639_1_code thai = some "th"
get_iso_639_1_code tigrinya = some "ti"
get_iso_639_1_code tok_pisin = none
get_iso_639_1_code tswana = some "tn"
get_iso_639_1_code tsonga = some "ts"
get_iso_639_1_code turkmen = some "tk"
get_iso_639_1_code tumbuka = none
get_iso_639_1_code turkish = some "tr"
get_iso_639_1_code twi = some "tw"
get_iso_639_1_code central_atlas_tamazight = none
get_iso_639_1_code uighur = some "ug"
get_iso_639_1_code ukrainian = some "uk"
get_iso_639_1_code umbundu = none
get_iso_639_1_code urdu = some "ur"
get_iso_639_1_code northern_uzbek = some "uzn"
get_iso_639_1_code venetian = none
get_iso_639_1_code vietnamese = some "vi"
get_iso_639_1_code waray = none
get_iso_639_1_code wolof = some "wo"
get_iso_639_1_code xhosa = some "xh"
get_iso_639_1_code eastern_yiddish = none
get_iso_639_1_code yoruba = some "yo"
get_iso_639_1_code yue_chinese = none
get_iso_639_1_code chinese = some "zh"
get_iso_639_1_code zulu = some "zu"
get_iso_639_1_code western_frisian = some "fy"
get_iso_639_1_code arabic = some "ar"
get_iso_639_1_code mongolian = some "mn"
get_iso_639_1_code yiddish = some "yi"
get_iso_639_1_code pashto = some "ps"
get_iso_639_1_code farsi = some "fa"
get_iso_639_1_code fulah = some "ff"
get_iso_639_1_code uzbek = some "uz"
get_iso_639_1_code malagasy = some "mg"
get_iso_639_1_code albanian = some "sq"
get_iso_639_1_code breton = some "br"
get_iso_639_1_code malay = some "zsm_Latn"
get_iso_639_1_code oriya = some "or"
get_iso_639_1_code northern_sotho = some "nso"
get_iso_639_1_code luganda = some "lg"
get_iso_639_1_code azerbaijani = some "az"
get_iso_639_1_code chinese_mandarin = none
get_iso_639_1_code haitian_creole = some "ht"
get_iso_639_1_code central_khmer = some "km"
