-- ===== src/Conf.antt =====
-- The configuration: src/conf/ini.c, src/conf/conf_file.c and src/conf/conf_model.c.
mod Result
mod Model
mod Declared
mod Code
mod FromCode
mod Accepted
mod SinkBounds
mod Applied
mod CodeBounds
mod Sized
mod SinkRules
mod Values
mod Global
mod Lines
mod RuleLine
mod File
mod Limited
mod Loaded
mod LoadedKeys
mod LoadedOutputs
mod LoadedFile
mod Follows
mod LoadedCallback
mod Order
mod Unraised
mod Sizes
mod Tests
mod FileTests
mod Lexer
mod Strip
mod Plain
mod Limits
mod Words
mod Slashed
mod Continued
mod Paths
mod Finalize
mod Open
mod Reload
mod Planned
mod Taken
mod Moved
mod Validated
mod Handles
mod Balanced
mod FinalizeTests
mod Trigger
mod Swapped
mod TriggerTests
