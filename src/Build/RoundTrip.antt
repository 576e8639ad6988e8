-- ===== src/Build/RoundTrip.antt =====
-- build/build.go and store/load.go: what is built is loaded again.
use agentfile.Common.{[], if◌then◌else◌}
use agentfile.Common.Results.{Result, ok, err}
use agentfile.Common.Texts.{Text, is_empty}
use agentfile.Spec.Types.{Context, Add}
use agentfile.Build
use agentfile.Build.Bodies

-- The text of a result that is there.
abbrev pub text_of : Result Build.BuildError Text → Text
text_of (ok x) = x
text_of (err e) = []

-- A context with the content that the agentfile or its file gives.
abbrev pub delivered : Build.Files → Context → Context
delivered src c =
    if is_empty c.content
    then record c { content = text_of (Build.resolve_context_content src c); file = [] }
    else c

abbrev pub deliver_add : Build.Files → Add → Add
deliver_add src a = record a { content = text_of (Build.add_content src a) }

-- The JSON of a file that is added leaves its content out.
abbrev pub without_content : Add → Add
without_content a = record a { content = [] }
