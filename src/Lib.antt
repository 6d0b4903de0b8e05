-- ===== src/Lib.antt =====
-- rust-bert's pipelines: the code around the language models that keeps the state of dialogues, prepares
-- batches, drives the generation of text and cuts long inputs, in src/pipelines of the repository.
--
-- The parts, the files that model them and the code:
--   Prelude, Prelude/*: shared names, lists measured by native numbers, Boolean tests. Prelude/Outcome has
--     `RustBertError` (src/common/error.rs) and the three ways a call ends: a value, an error, a panic. An
--     `unwrap`, a slice or an unsigned difference that goes wrong is a panic.
--   Float: `f64` and `OrderedFloat` as an interface with a total order.
--   Conversation/State: the struct `Conversation` and its methods (src/pipelines/conversation.rs).
--   Conversation/Manager: `ConversationManager`; the `HashMap` is an association list without repeated keys.
--   Conversation/Context: how `ConversationModel` joins, cuts and pads the contexts of a batch and cleans
--     what the generator returns.
--   Conversation/Respond: `ConversationModel` and `generate_responses`, which takes the pending
--     conversations of the manager, sends their contexts to the generator and writes the answers back.
--   Generation/Beam: `BeamHypotheses` (src/pipelines/generation_utils.rs).
--   Generation/Repetition: `enforce_repetition_penalty`.
--   Generation/Ngrams: `get_banned_tokens`. Generation/BadWords: the masks of the bad words.
--   Generation/Greedy: `generate_no_beam_search`, which calls both on every turn.
--   Generation/BeamSearch: the state of `generate_beam_search` for one beam group and the hypotheses that it
--     offers to `BeamHypotheses`; BeamSearch/Loop: its loop, the last beams and the function as a whole. It
--     goes through Generation/Candidates (the beams that are chosen), Generation/Ranking (the best
--     hypotheses) and Generation/Decoded (the matrix of ids, a cell being `none` where nothing was written).
--   Keywords/Tokenizer, Keywords/Scorer: the candidate words and the choice of keywords in
--     src/pipelines/keywords_extraction.
--   TokenClassification/Windows: the windows of `generate_features` and `get_reference_feature_flag`
--     (src/pipelines/token_classification.rs).
--   TokenClassification/Prediction, TokenClassification/Consolidation: `predict` with its batches, and how
--     the tokens of a word are made one.
--   QuestionAnswering/Features: the windows of a context, `get_mask` and `pad_features`
--     (src/pipelines/question_answering.rs), with the loop over windows of TokenClassification/Windows.
--   QuestionAnswering/Answers: `remove_duplicates`.
--   NamedEntities: the tags and the `EntityBuilder` of src/pipelines/ner.rs.
--   Translation/Language: the enum `Language` and its ISO 639 codes
--     (src/pipelines/translation/translation_pipeline.rs).
--
-- Token ids are natural numbers; tensors of ids are lists of rows. Where the source has an `i64` that may
-- be negative (`max_length - min_length_for_response`) it is a ℤ, and its cast to `usize` is written out.
--
-- Fuel: `generate_loop` takes one unit for each turn, and the length grows with each, so that the tokens
-- left up to `max_length` are enough; so it is for `search_loop`. `spans_loop` takes one for each window,
-- and each begins later than the one before, so that one more than the number of tokens is enough.
-- `predict_loop` takes one for each batch, so that one
-- more than the number of features is enough.
--
-- Not modelled: the neural models and the tensor library, tokenizers, downloads and the ONNX runtime. The
-- tokenizer and the model of a dialogue are the record `DialogueModel`, the model and the choice of a token
-- in the generation are `Decoder` and `BeamDecoder`, the matrix of scores is `Scores`, the classifier of tokens
-- is `Classifier`, the similarities of words are `Similarities`. Several beam groups, the resolution of the
-- generation options and the rest of these and the other pipelines are left out as well.
pub mod Prelude
pub mod Float
pub mod Conversation
pub mod Generation
pub mod Keywords
pub mod TokenClassification
pub mod QuestionAnswering
pub mod NamedEntities
pub mod Translation
