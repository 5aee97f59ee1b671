-- ===== src/Adapter/Decision/Texts.antt =====
-- packages/openclaw-adapter/src/mapping/decision/evidence-helpers.ts: the text patterns of blocked
-- and unfinished work. They are alternatives of words, taken without regard to case, so a match is
-- one of the words somewhere in the text.
use Prim.Native.Char.{code}
use Prim.Native.Nat.{compare, Ordering}
use lanxin_claw.Shared.{
  ℕ, ◌+◌, String, Bool, true, false, ◌&&◌, ◌||◌, List, [], ◌∷◌, Option, none, some, if◌then◌else◌,
  any, leb,
}

-- A capital letter of the Latin alphabet is read as its small one.
abbrev fold : ℕ → ℕ
fold c = if leb 65 c && leb c 90 then c + 32 else c

abbrev same_code : ℕ → ℕ → Bool
same_code a b = elim (compare a b) [ Ordering.eq ↦ true | _ ↦ false ]

unfoldable pub begins : (read : ℕ → ℕ) (word text : String) → Bool
begins read String.[] text = true
begins read (String.◌∷◌ w word) String.[] = false
begins read (String.◌∷◌ w word) (String.◌∷◌ c text) =
    same_code (read (code c)) (code w) && begins read word text

unfoldable pub occurs : (read : ℕ → ℕ) (word text : String) → Bool
occurs read word String.[] = begins read word String.[]
occurs read word (String.◌∷◌ c text) = begins read word (String.◌∷◌ c text) || occurs read word text

-- `text.includes(word)`.
abbrev pub mentions : String → String → Bool
mentions word text = occurs (λ c. c) word text

abbrev pub mentions_one : List String → String → Bool
mentions_one words text = any (λ word. mentions word text) words

-- The same with a pattern of the flag `i`.
abbrev pub speaks_of : List String → String → Bool
speaks_of words text = any (λ word. occurs fold word text) words

-- `BLOCKING_TEXT_PATTERN`.
abbrev pub blocking_words : List String
blocking_words =
    "policy" ∷ "permission" ∷ "approval" ∷ "not allowed" ∷ "denied" ∷ "blocked" ∷ "disabled"
    ∷ "no provider" ∷ "unavailable" ∷ "not configured" ∷ "missing provider" ∷ "cannot" ∷ "can't"
    ∷ "unable" ∷ "requires user" ∷ "need user" ∷ "unauthorized" ∷ "forbidden" ∷ "受限" ∷ "阻止" ∷ "阻塞"
    ∷ "权限" ∷ "授权" ∷ "不可用" ∷ "未配置" ∷ "不允许" ∷ "无法" ∷ "不能" ∷ "需要用户" ∷ "需要你" ∷ "拒绝" ∷ []

-- `NEGATIVE_FINAL_REPLY_PATTERN`, its groups written out.
abbrev pub negative_words : List String
negative_words =
    "cannot complete" ∷ "can't complete" ∷ "unable to complete" ∷ "could not complete"
    ∷ "not completed" ∷ "failed to" ∷ "blocked by" ∷ "policy blocked" ∷ "policy block"
    ∷ "policy restriction" ∷ "policy restricted" ∷ "policy denied" ∷ "policy forbidden"
    ∷ "policy not allowed" ∷ "permission required" ∷ "permission needed" ∷ "permission denied"
    ∷ "permission missing" ∷ "permission blocked" ∷ "permission not granted"
    ∷ "requires user permission" ∷ "requires user approval" ∷ "requires permission"
    ∷ "requires approval" ∷ "needs user permission" ∷ "needs user approval" ∷ "needs permission"
    ∷ "needs approval" ∷ "without permission" ∷ "no permission" ∷ "disabled" ∷ "no provider"
    ∷ "unavailable" ∷ "not configured" ∷ "无法完成" ∷ "无法" ∷ "不能" ∷ "没能完成" ∷ "没有完成" ∷ "执行失败" ∷ "受限"
    ∷ "策略限制" ∷ "被阻止" ∷ "不可用" ∷ "未配置" ∷ "需要你" ∷ "需要用户" ∷ "没有权限" ∷ "缺少权限" ∷ []

unfoldable pub contains_blocking_text : Option String → Bool
contains_blocking_text none = false
contains_blocking_text (some text) = speaks_of blocking_words text
