-- ===== src/Logger.antt =====
-- include/notification/Logger.hpp: the lines that the service writes about itself. The clock's text
-- and the thread's, which the C++ library makes, are arguments.
use distributed_notification.Base.{String, ◌<>◌, List, [], ◌∷◌, ◌++◌}

pub data Level : Type 0 where
  debug info warn error : Level

abbrev pub level_str : Level → String
level_str debug = "DEBUG"
level_str info = "INFO"
level_str warn = "WARN"
level_str error = "ERROR"

abbrev pub log_line : String → String → Level → String → String → String
log_line ts thread level component msg =
    "["
    <> (ts
        <> ("] ["
            <> (level_str level
                <> ("] "
                    <> ("[thread="
                        <> (thread <> ("] " <> ("[" <> (component <> ("] " <> msg))))))))))

-- A mutex guards the call, so a line comes whole after the lines before it.
abbrev pub log : String → String → Level → String → String → List String → List String
log ts thread level component msg lines = lines ++ log_line ts thread level component msg ∷ []

-- The macros.
abbrev pub log_info : String → String → String → String → List String → List String
log_info ts thread = log ts thread info

abbrev pub log_warn : String → String → String → String → List String → List String
log_warn ts thread = log ts thread warn

abbrev pub log_error : String → String → String → String → List String → List String
log_error ts thread = log ts thread error

abbrev pub log_debug : String → String → String → String → List String → List String
log_debug ts thread = log ts thread debug
