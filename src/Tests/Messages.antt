-- ===== src/Tests/Messages.antt =====
-- The parser on a message with a mention, a code block and an escape.
use company_backend.Prelude.{◌≡◌, some, List, [], ◌∷◌}
use company_backend.Parser.{MessageToken, MessageResults, no_mentions, parse_message}
use company_backend.Parser.Telling.{Tells}
use company_backend.Parser.Reading.{Reads, parse_message_reads}

abbrev message : List MessageToken
message =
    MessageToken.user_mention 4
    ∷ MessageToken.codeblock_marker 1
    ∷ MessageToken.mention_everyone
    ∷ MessageToken.codeblock_marker 1
    ∷ MessageToken.escape
    ∷ MessageToken.mention_online
    ∷ []

parse_message_reads_example :
    (out : List MessageToken) × (r : MessageResults) × Reads message out
    × (parse_message message ≡ some r)
    × Tells out no_mentions r
parse_message_reads_example = parse_message_reads message
