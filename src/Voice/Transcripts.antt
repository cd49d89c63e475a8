-- ===== src/Voice/Transcripts.antt =====
-- voice/journal.py: the table of final transcripts, without SQL. The list holds the rows; times are
-- compared as numbers, as the texts of UTC times compare.
use Prim.Native.String.{[] as empty_text, ◌∷◌ as char_cons}
use personal_secretary.Prelude.{
  ℕ, zero, suc, String, Bool, not, Option, none, some, List, [], ◌∷◌, ◌++◌, ◌&&◌, ◌||◌, str_eq,
  str_le, leb, length, keep, map, if◌then◌else◌,
}
use personal_secretary.Prelude.Int.{ℤ, pos, ◌+ℤ◌, ltb_ℤ, leb_ℤ}
use personal_secretary.Prelude.Sort.{sort_by}
use personal_secretary.Prelude.Results.{Result, err, ok}
use personal_secretary.Voice.Models.{VoiceError, transcript_retention}

pub record TranscriptEntry : Type 0 where
  pub session_id : String
  pub turn_id : String
  pub text : String
  pub finalized_at : ℤ
  pub expires_at : ℤ

unfoldable pub entry_for : String → List TranscriptEntry → Option TranscriptEntry
entry_for turn_id [] = none
entry_for turn_id (r ∷ rs) =
    let rest = entry_for turn_id rs in if str_eq r.turn_id turn_id then some r else rest

unfoldable pub new_entry : ℤ → String → String → String → TranscriptEntry
new_entry now session_id turn_id text = record {
  session_id = session_id;
  turn_id = turn_id;
  text = text;
  finalized_at = now;
  expires_at = now +ℤ pos transcript_retention;
}

-- The branches of `append_final`; an empty text is refused when the entry is made.
abbrev pub appended_final :
    ℤ
    → List TranscriptEntry
    → String
    → String
    → String
    → Option TranscriptEntry
    → List TranscriptEntry × Result VoiceError TranscriptEntry
appended_final now rows session_id turn_id text (some existing) =
    if str_eq existing.text text
    then (rows, ok existing)
    else (rows, err (VoiceError.order "conflicting final transcript"))
appended_final now rows session_id turn_id text none =
    let entry = new_entry now session_id turn_id text in
    if str_eq text "" then (rows, err VoiceError.empty_text) else (rows ++ entry ∷ [], ok entry)

unfoldable pub append_final :
    ℤ
    → List TranscriptEntry
    → String
    → String
    → String
    → List TranscriptEntry × Result VoiceError TranscriptEntry
append_final now rows session_id turn_id text =
    appended_final now rows session_id turn_id text (entry_for turn_id rows)

-- `ORDER BY finalized_at, turn_id`
abbrev pub entry_le : TranscriptEntry → TranscriptEntry → Bool
entry_le a b =
    ltb_ℤ a.finalized_at b.finalized_at
    || (leb_ℤ a.finalized_at b.finalized_at && str_le a.turn_id b.turn_id)

unfoldable pub entries : ℤ → List TranscriptEntry → List TranscriptEntry
entries now rows = sort_by entry_le (keep (λ r. ltb_ℤ now r.expires_at) rows)

-- `xs[-n:]`, for n > 0.
unfoldable pub last_items {ℓ} : {A : Type ℓ} → ℕ → List A → List A
last_items n [] = []
last_items n (x ∷ xs) =
    let rest = last_items n xs in if leb (suc (length xs)) n then x ∷ xs else rest

-- `text[:n]`
unfoldable pub take_text : ℕ → String → String
take_text zero text = empty_text
take_text (suc n) empty_text = empty_text
take_text (suc n) (char_cons c text) = char_cons c (take_text n text)

unfoldable pub latest_context : ℤ → List TranscriptEntry → List String
latest_context now rows = map (λ r. take_text 256 r.text) (last_items 2 (entries now rows))

unfoldable pub purge_expired : ℤ → List TranscriptEntry → List TranscriptEntry × ℕ
purge_expired now rows = (
  keep (λ r. not (leb_ℤ r.expires_at now)) rows,
  length (keep (λ r. leb_ℤ r.expires_at now) rows),
)
